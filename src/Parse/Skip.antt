-- ===== src/Parse/Skip.antt =====
-- The commands of src/main.c that only skip fields: none of them can fault or fail to end.
use qwnet_library.Msg.{Read}
use qwnet_library.Msg.Safety.{Safe}
use qwnet_library.Parse.Message.{skip_fields}
use qwnet_library.Parse.Safety.{part_rules}
use qwnet_library.Prelude.{ℕ, Bool, true, false, Option, none, some, if◌then◌else◌}

abbrev pub SafeOption : Option (Read (Unit {0})) → Type 0
SafeOption none = Unit {0}
SafeOption (some m) = Safe m

SafeOption-if :
    (b : Bool) (m : Read (Unit {0})) (rest : Option (Read (Unit {0})))
    → Safe m
    → SafeOption rest
    → SafeOption (if b then some m else rest)
SafeOption-if true m rest h k = h
SafeOption-if false m rest h k = k

-- Each command of a message that only skips fields is safe, in every protocol version, from every
-- position inside a message and also at its end: it returns, reads no byte outside the buffer,
-- changes none, and does not move back.
pub skip_fields-Safe : (version cmd : ℕ) → SafeOption (skip_fields version cmd)
unfolding skip_fields
skip_fields-Safe version cmd = search (SafeOption-if, part_rules) depth 40
