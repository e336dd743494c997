-- ===== src/Helpers/Comments.antt =====
-- `Split`, `GetComment`, `GenerateCommentsWithPrefix` and `GetPrefixedComments` of
-- src/compiler/generator_helpers.h, and `GetCppComments` of src/compiler/cpp_generator_helpers.h.
pub mod Lines
use grpc_cb.Base.{
  ℕ, ◌+◌, ◌/◌, Bool, true, false, Option, none, some, List, [], ◌∷◌, ◌++◌, Bytes, codes, ◌==◌,
  if◌then◌else◌,
}
use grpc_cb.Helpers.Descriptors.{SourceLocation}

pub data CommentType : Type 0 where
  comment_leading comment_trailing comment_leading_detached : CommentType

-- The lines that `std::getline(iss, piece)` yields: it reads up to a newline, drops it, and fails
-- at the end of the text, so an empty piece behind the last newline is no line.
abbrev add_byte : ℕ → List Bytes → List Bytes
add_byte c [] = (c ∷ []) ∷ []
add_byte c (p ∷ ps) = (c ∷ p) ∷ ps

unfoldable pub getlines : Bytes → List Bytes
getlines [] = []
getlines (c ∷ s) = if c == b'\n' then [] ∷ getlines s else add_byte c (getlines s)

-- `delim` is not read: the lines are always those between newlines.
unfoldable pub split : Bytes → ℕ → List Bytes → List Bytes
unfolding getlines
split s delim append_to = append_to ++ getlines s

-- `for (…) { Split(location.leading_detached_comments[i], '\n', out); out->push_back(""); }`
unfoldable pub split_detached : List Bytes → List Bytes → List Bytes
unfolding split
split_detached [] out = out
split_detached (c ∷ cs) out = split_detached cs (split c b'\n' out ++ [] ∷ [])

-- `GetComment` of a declaration, whose location is absent if `GetSourceLocation` fails.
unfoldable pub get_comment : Option SourceLocation → CommentType → List Bytes → List Bytes
unfolding split_detached
get_comment none type out = out
get_comment (some location) comment_leading out = split location.leading_comments b'\n' out
get_comment (some location) comment_trailing out = split location.trailing_comments b'\n' out
get_comment (some location) comment_leading_detached out =
    split_detached location.leading_detached_comments out

-- `GetComment` of a file, at the location of its syntax line.
unfoldable pub get_file_comment : Option SourceLocation → CommentType → List Bytes → List Bytes
unfolding split_detached
get_file_comment location comment_trailing out = out
get_file_comment none comment_leading out = out
get_file_comment (some location) comment_leading out = split location.leading_comments b'\n' out
get_file_comment none comment_leading_detached out = out
get_file_comment (some location) comment_leading_detached out =
    split_detached location.leading_detached_comments out

-- What is written for one comment line, less its newline.
unfoldable pub comment_line : Bytes → Bytes → Bytes
comment_line prefix [] = prefix
comment_line prefix (c ∷ elem) = if c == b' ' then prefix ++ c ∷ elem else prefix ++ b' ' ∷ c ∷ elem

write_comments : Bytes → List Bytes → Bytes → Bytes
write_comments oss [] prefix = oss
write_comments oss (elem ∷ rest) prefix =
    write_comments (oss ++ (comment_line prefix elem ++ b'\n' ∷ [])) rest prefix

unfoldable pub generate_comments_with_prefix : List Bytes → Bytes → Bytes
unfolding write_comments comment_line
generate_comments_with_prefix lines prefix = write_comments [] lines prefix

-- `GetPrefixedComments`; `get` is the `GetComment` of the descriptor's type.
unfoldable pub get_prefixed_comments :
    (CommentType → List Bytes → List Bytes) → Bool → Bytes → Bytes
unfolding generate_comments_with_prefix
get_prefixed_comments get true prefix =
    let out = get comment_leading_detached [] in
    let leading = get comment_leading [] in generate_comments_with_prefix (out ++ leading) prefix
get_prefixed_comments get false prefix =
    generate_comments_with_prefix (get comment_trailing []) prefix

unfoldable pub get_cpp_comments : Option SourceLocation → Bool → Bytes
unfolding get_prefixed_comments
get_cpp_comments location leading =
    get_prefixed_comments (get_comment location) leading (codes "//")
