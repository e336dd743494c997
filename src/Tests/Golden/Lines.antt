-- ===== src/Tests/Golden/Lines.antt =====
-- A text from its lines.
use grpc_cb.Base.{List, [], ◌∷◌, ◌++◌, Bytes, String, codes}

abbrev pub text_of : List String → Bytes
text_of [] = []
text_of (line ∷ lines) = codes line ++ b'\n' ∷ text_of lines
