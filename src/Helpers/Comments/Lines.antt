-- ===== src/Helpers/Comments/Lines.antt =====
-- The lines that the comment helpers read and write.
use grpc_cb.Base.{
  ℕ, ◌≡◌, refl, sym, ap, ◌∙◌, ◌≢◌, inl, inr, Bool, true, false, Option, none, some, List, [], ◌∷◌,
  ◌++◌, map, append_assoc, append-nil, arith, Bytes, codes, ◌==◌, Bool-cases, All, All-append,
  Lacks,
}
use grpc_cb.Helpers.Descriptors.{SourceLocation}
use grpc_cb.Helpers.Comments.{
  CommentType, comment_leading, comment_trailing, comment_leading_detached, add_byte, getlines,
  split, split_detached, get_comment, comment_line, write_comments, generate_comments_with_prefix,
  get_cpp_comments,
}

abbrev pub IsLine : Bytes → Type 0
IsLine = Lacks b'\n'

add_byte-IsLine : (c : ℕ) (ps : List Bytes) → c ≢ b'\n' → All IsLine ps → All IsLine (add_byte c ps)
add_byte-IsLine c [] h k = ((h, tt), tt)
add_byte-IsLine c (p ∷ ps) h (k, ks) = ((h, k), ks)

getlines-IsLine : (s : Bytes) → All IsLine (getlines s)
unfolding getlines
getlines-IsLine [] = tt
getlines-IsLine (c ∷ s) = elim (Bool-cases (c == b'\n')) [
  | inl e ↦ rw e (tt, getlines-IsLine s)
  | inr e ↦ rw e (add_byte-IsLine c (getlines s) (ground arith) (getlines-IsLine s))
]

-- A line in front of a newline is read as it is.
getlines-line : (p s : Bytes) → IsLine p → getlines (p ++ b'\n' ∷ s) ≡ p ∷ getlines s
unfolding getlines
getlines-line [] s h = refl
getlines-line (c ∷ p) s (h, hs) = ground (arith, getlines-line p s hs)

unlines : List Bytes → Bytes
unlines [] = []
unlines (p ∷ ps) = p ++ b'\n' ∷ unlines ps

getlines-unlines : (ps : List Bytes) → All IsLine ps → getlines (unlines ps) ≡ ps
unfolding unlines
getlines-unlines [] h = unfold getlines in refl
getlines-unlines (p ∷ ps) (h, hs) =
    getlines-line p (unlines ps) h ∙ ap (λ l. p ∷ l) (getlines-unlines ps hs)

write_comments-unlines :
    (oss : Bytes) (lines : List Bytes) (prefix : Bytes)
    → write_comments oss lines prefix ≡ oss ++ unlines (map (comment_line prefix) lines)
unfolding write_comments unlines
write_comments-unlines oss [] prefix = sym (append-nil oss)
write_comments-unlines oss (p ∷ ps) prefix =
    write_comments-unlines (oss ++ (comment_line prefix p ++ b'\n' ∷ [])) ps prefix
    ∙ simp append_assoc

comment_line-IsLine : (prefix p : Bytes) → IsLine prefix → IsLine p → IsLine (comment_line prefix p)
unfolding comment_line
comment_line-IsLine prefix [] h k = h
comment_line-IsLine prefix (c ∷ p) h k = elim (Bool-cases (c == b' ')) [
  | inl e ↦ rw e (All-append (λ x. (x ≡ b'\n') → ⊥) prefix (c ∷ p) h k)
  | inr e ↦ rw e (All-append (λ x. (x ≡ b'\n') → ⊥) prefix (b' ' ∷ c ∷ p) h (omega arith, k))
]

map-IsLine :
    (prefix : Bytes) (ps : List Bytes)
    → IsLine prefix
    → All IsLine ps
    → All IsLine (map (comment_line prefix) ps)
map-IsLine prefix [] h k = tt
map-IsLine prefix (p ∷ ps) h (k, ks) = (comment_line-IsLine prefix p h k, map-IsLine prefix ps h ks)

-- The text written for comment lines is one line for each, the prefix in front of it: no comment
-- line is lost, merged or able to leave its comment.
pub getlines-generate_comments :
    (lines : List Bytes) (prefix : Bytes)
    → IsLine prefix
    → All IsLine lines
    → getlines (generate_comments_with_prefix lines prefix) ≡ map (comment_line prefix) lines
unfolding generate_comments_with_prefix
getlines-generate_comments lines prefix h k =
    rw (write_comments-unlines [] lines prefix)
      (getlines-unlines (map (comment_line prefix) lines) (map-IsLine prefix lines h k))

split-IsLine :
    (s : Bytes) (delim : ℕ) (out : List Bytes) → All IsLine out → All IsLine (split s delim out)
unfolding split
split-IsLine s delim out h = All-append IsLine out (getlines s) h (getlines-IsLine s)

split_detached-IsLine : (cs out : List Bytes) → All IsLine out → All IsLine (split_detached cs out)
unfolding split_detached
split_detached-IsLine [] out h = h
split_detached-IsLine (c ∷ cs) out h =
    split_detached-IsLine cs (split c b'\n' out ++ [] ∷ [])
      (All-append IsLine (split c b'\n' out) ([] ∷ []) (split-IsLine c b'\n' out h) (tt, tt))

get_comment-IsLine :
    (location : Option SourceLocation) (type : CommentType)
    → All IsLine (get_comment location type [])
unfolding get_comment
get_comment-IsLine none type = tt
get_comment-IsLine (some l) comment_leading = split-IsLine l.leading_comments b'\n' [] tt
get_comment-IsLine (some l) comment_trailing = split-IsLine l.trailing_comments b'\n' [] tt
get_comment-IsLine (some l) comment_leading_detached =
    split_detached-IsLine l.leading_detached_comments [] tt

abbrev pub IsCppComment : Bytes → Type 0
IsCppComment line = (rest : Bytes) × (line ≡ b'/' ∷ b'/' ∷ rest)

comment_line-IsCppComment : (p : Bytes) → IsCppComment (comment_line (codes "//") p)
unfolding comment_line
comment_line-IsCppComment [] = ([], refl)
comment_line-IsCppComment (c ∷ p) = elim (Bool-cases (c == b' ')) [
  | inl e ↦ (c ∷ p, rw e)
  | inr e ↦ (b' ' ∷ c ∷ p, rw e)
]

map-IsCppComment : (ps : List Bytes) → All IsCppComment (map (comment_line (codes "//")) ps)
map-IsCppComment [] = tt
map-IsCppComment (p ∷ ps) = (comment_line-IsCppComment p, map-IsCppComment ps)

lines-IsCppComment :
    (ps : List Bytes)
    → All IsLine ps
    → All IsCppComment (getlines (generate_comments_with_prefix ps (codes "//")))
lines-IsCppComment ps h =
    rw (getlines-generate_comments ps (codes "//") (omega arith) h) (map-IsCppComment ps)

-- Every line of the C++ comment text begins with `//`, whatever comments the descriptor holds.
pub get_cpp_comments-IsCppComment :
    (location : Option SourceLocation) (leading : Bool)
    → All IsCppComment (getlines (get_cpp_comments location leading))
unfolding get_cpp_comments
get_cpp_comments-IsCppComment location true =
    lines-IsCppComment
      (get_comment location comment_leading_detached [] ++ get_comment location comment_leading [])
      (All-append IsLine (get_comment location comment_leading_detached [])
        (get_comment location comment_leading [])
        (get_comment-IsLine location comment_leading_detached)
        (get_comment-IsLine location comment_leading))
get_cpp_comments-IsCppComment location false =
    lines-IsCppComment (get_comment location comment_trailing [])
      (get_comment-IsLine location comment_trailing)
