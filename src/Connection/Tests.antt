-- ===== src/Connection/Tests.antt =====
-- The batches of a connection (atemwire/connection.py) for concrete commands.
use bmdwire.Prelude.{none, some, List, [], ◌∷◌}
use bmdwire.Connection.{Command, batches}
use bmdwire.Connection.Batches.{IsCutInto, batches-IsCutInto}

-- One of them does not render, and one is too large for a packet.
abbrev five_commands : List Command
five_commands =
    record { ident = 1; size = some 700 }
    ∷ record { ident = 2; size = none }
    ∷ record { ident = 3; size = some 500 }
    ∷ record { ident = 4; size = some 1201 }
    ∷ record { ident = 5; size = some 12 }
    ∷ []

batches-IsCutInto_example : IsCutInto [] five_commands (batches five_commands)
batches-IsCutInto_example = batches-IsCutInto five_commands
