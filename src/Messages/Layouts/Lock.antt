-- ===== src/Messages/Layouts/Lock.antt =====
-- Layouts of atemwire/messages/lock.py.
use bmdwire.Prelude.{none, [], ◌∷◌}
use bmdwire.Messages.{Kind, Layout, field}

-- `LockCommand`
abbrev pub lock_command : Layout
lock_command = record {
  code = "LOCK";
  size = 4;
  mask_at = none;
  mask_type = Kind.u8;
  fields = field "store" Kind.u16 0 none 1 ∷ field "state" Kind.boolean 2 none 1 ∷ [];
}

-- `PartialLockCommand`
abbrev pub partial_lock_command : Layout
partial_lock_command = record {
  code = "PLCK";
  size = 8;
  mask_at = none;
  mask_type = Kind.u8;
  fields =
      field "store" Kind.u16 0 none 1
      ∷ field "slot" Kind.u16 2 none 1
      ∷ field "_const_ff" Kind.u8 4 none 1
      ∷ field "_const_01" Kind.u8 5 none 1
      ∷ [];
}

-- `LockObtainedField`
abbrev pub lock_obtained_field : Layout
lock_obtained_field = record {
  code = "LKOB";
  size = 0;
  mask_at = none;
  mask_type = Kind.u8;
  fields = field "store" Kind.u16 0 none 1 ∷ [];
}

-- `LockStateField`
abbrev pub lock_state_field : Layout
lock_state_field = record {
  code = "LKST";
  size = 0;
  mask_at = none;
  mask_type = Kind.u8;
  fields =
      field "store" Kind.u16 0 none 1
      ∷ field "state" Kind.boolean 2 none 1
      ∷ field "u1" Kind.u8 3 none 1
      ∷ [];
}
