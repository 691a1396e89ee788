-- ===== src/Protocol/Dump.antt =====
-- `_check_dump_complete` (atemwire/protocol.py): a state dump that ends without a video mode.
use bmdwire.Prelude.{
  ℕ, ◌+◌, ◌≤◌, ◌<◌, ◌≡◌, refl, Bool, true, false, not, ◌||◌, List, [], ◌∷◌, length, ltb, ltb→lt,
  if◌then◌else◌, arith, Bool-cases, inl, inr,
}

-- `INCOMPLETE_DUMP_RETRIES`
abbrev pub incomplete_dump_retries : ℕ
incomplete_dump_retries = 3

-- `_check_dump_complete`: whether `IncompleteStateDump` is raised, and the new `_incomplete_dumps`.
unfoldable pub check_dump_complete : Bool → ℕ → Bool × ℕ
check_dump_complete has_video_mode incomplete_dumps =
    if has_video_mode
    then (false, 0)
    else if ltb incomplete_dumps incomplete_dump_retries
    then (true, incomplete_dumps + 1)
    else (false, 0)

-- Some dump of the run is carried on with.
unfoldable pub carries_on : List Bool → ℕ → Bool
carries_on [] incomplete_dumps = false
carries_on (has_video_mode ∷ dumps) incomplete_dumps =
    let (raised, next) = check_dump_complete has_video_mode incomplete_dumps in
    not raised || carries_on dumps next

-- Whatever the switcher sends: of more dumps in a row than the retries that are left, the session
-- carries on with one at least, so that four dumps are enough from any count.
pub carries_on-enough :
    (dumps : List Bool) (incomplete_dumps : ℕ)
    → incomplete_dump_retries < length dumps + incomplete_dumps
    → incomplete_dumps ≤ incomplete_dump_retries
    → carries_on dumps incomplete_dumps ≡ true
unfolding carries_on check_dump_complete
carries_on-enough [] n h k = ground arith
carries_on-enough (true ∷ dumps) n h k = refl
carries_on-enough (false ∷ dumps) n h k = elim (Bool-cases (ltb n 3)) [
  | inl e ↦
      let small = ltb→lt n 3 e in rw e (carries_on-enough dumps (n + 1) (omega arith) (omega arith))
  | inr e ↦ rw e refl
]
