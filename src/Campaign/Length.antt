-- ===== src/Campaign/Length.antt =====
-- `len(identity) == 64`
use Prim.Native.String.{String, count}
use phone_law.Prelude.{Bool, eqb}

abbrev pub digest_length : String → Bool
digest_length identity = eqb (count identity) 64
