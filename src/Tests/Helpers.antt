-- ===== src/Tests/Helpers.antt =====
-- Runs of the helpers, and their theorems at concrete inputs.
use grpc_cb.Base.{◌++◌}
use grpc_cb.Helpers.Replace.{dots_to_colons}
use grpc_cb.Helpers.Descriptors.{full_name, short_name}
use grpc_cb.Helpers.ClassNames.{class_name, outer_of, nested_names, class_name_lem}
use grpc_cb.Base.{
  ◌≡◌, refl, true, false, none, some, [], ◌∷◌, map, arith, Bytes, codes, bytes_eq, All, Lacks,
}
use grpc_cb.Helpers.Strip.{strip_suffix, strip_proto}
use grpc_cb.Helpers.Tokenize.{tokenize}
use grpc_cb.Helpers.Tokenize.Joined.{join, join-tokenize}
use grpc_cb.Helpers.Replace.{string_replace}
use grpc_cb.Helpers.Replace.Leftmost.{Replaced, string_replace-Replaced}
use grpc_cb.Helpers.Camel.{lower_underscore_to_upper_camel, file_name_in_upper_camel}
use grpc_cb.Helpers.Identifier.{filename_identifier, decode, decode-filename_identifier}
use grpc_cb.Helpers.Descriptors.{Descriptor, outermost, nested, SourceLocation}
use grpc_cb.Helpers.Comments.{
  comment_line, get_comment, getlines, generate_comments_with_prefix, get_cpp_comments,
}
use grpc_cb.Helpers.Comments.Lines.{
  IsCppComment, getlines-generate_comments, get_cpp_comments-IsCppComment,
}

tokenize-run : tokenize (codes "a/b//c") (codes "/") ≡ codes "a" ∷ codes "b" ∷ [] ∷ codes "c" ∷ []
unfolding tokenize
tokenize-run = refl

join-tokenize_example :
    (join b'/' (tokenize (codes "a/b") (codes "/")) ≡ codes "a/b")
    × All (Lacks b'/') (tokenize (codes "a/b") (codes "/"))
join-tokenize_example = join-tokenize b'/' (codes "a/b")

string_replace-run :
    string_replace (codes "aaab") (codes "aa") (codes "c") true ≡ some (codes "cab")
unfolding string_replace
string_replace-run = refl

string_replace-first :
    string_replace (codes "aaaa") (codes "aa") (codes "c") false ≡ some (codes "caa")
unfolding string_replace
string_replace-first = refl

string_replace-Replaced_example :
    (t : Bytes) × (string_replace (codes "aaab") (codes "aa") (codes "c") true ≡ some t)
    × Replaced (codes "aa") (codes "c") (codes "aaab") t
string_replace-Replaced_example = string_replace-Replaced (codes "aaab") (codes "aa") (codes "c") cc

file_name_in_upper_camel-run :
    file_name_in_upper_camel (codes "a/b_c/route_guide.proto") true ≡ codes "a/b_c/RouteGuide"
unfolding file_name_in_upper_camel strip_proto strip_suffix bytes_eq tokenize
    lower_underscore_to_upper_camel
file_name_in_upper_camel-run = refl

filename_identifier-run : filename_identifier (codes "a_b.proto") ≡ codes "a_5fb_2eproto"
unfolding filename_identifier
filename_identifier-run = refl

decode-filename_identifier_example : decode none (filename_identifier (codes "a.b")) ≡ codes "a.b"
decode-filename_identifier_example =
    decode-filename_identifier (codes "a.b") (omega arith, (omega arith, (omega arith, tt)))

abbrev inner : Descriptor
inner = nested (outermost (codes "p.A") (codes "A")) (codes "p.A.B") (codes "B")

getlines-generate_comments_example :
    getlines (generate_comments_with_prefix (codes " a" ∷ [] ∷ codes "b" ∷ []) (codes "//"))
    ≡ map (comment_line (codes "//")) (codes " a" ∷ [] ∷ codes "b" ∷ [])
getlines-generate_comments_example =
    getlines-generate_comments (codes " a" ∷ [] ∷ codes "b" ∷ []) (codes "//") (omega arith)
      ((omega arith), (tt, ((omega arith), tt)))

abbrev commented : SourceLocation
commented = record {
  leading_comments = codes " a\nb\n";
  trailing_comments = codes "c";
  leading_detached_comments = codes "d\n" ∷ [];
}

get_cpp_comments-run : get_cpp_comments (some commented) true ≡ codes "// d\n//\n// a\n// b\n"
unfolding get_cpp_comments get_comment generate_comments_with_prefix
get_cpp_comments-run = refl

get_cpp_comments-IsCppComment_example :
    All IsCppComment (getlines (get_cpp_comments (some commented) true))
get_cpp_comments-IsCppComment_example = get_cpp_comments-IsCppComment (some commented) true

class_name_lem_example :
    (class_name inner true
      ≡ codes "::" ++ (dots_to_colons (full_name (outer_of inner)) ++ nested_names inner))
    × (class_name inner false ≡ short_name (outer_of inner) ++ nested_names inner)
class_name_lem_example =
    class_name_lem inner ((omega arith, tt), (omega arith, tt), unfold full_name in refl)
