-- ===== src/Reporting/Texts.antt =====
-- `"|".join` of two texts.
use Prim.Native.String.{String, ◌++◌}

abbrev pub joined : String → String → String
joined a b = a ++ ("|" ++ b)
