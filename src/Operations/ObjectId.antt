-- ===== src/Operations/ObjectId.antt =====
-- `OBJECT_ID_PATTERN` of packages/media/store.py: 32 digits of lower-case hexadecimal.
use Prim.Native.Char.{Char, code}
use Prim.Native.String.{String, [], ◌∷◌, count}
use phone_law.Prelude.{Bool, true, ◌&&◌, ◌||◌, leb, eqb}

abbrev is_hex : Char → Bool
is_hex c = (leb 48 (code c) && leb (code c) 57) || (leb 97 (code c) && leb (code c) 102)

abbrev all_hex : String → Bool
all_hex [] = true
all_hex (c ∷ s) = is_hex c && all_hex s

unfoldable pub is_object_id : String → Bool
is_object_id s = all_hex s && eqb (count s) 32
