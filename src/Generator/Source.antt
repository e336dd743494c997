-- ===== src/Generator/Source.antt =====
-- The functions of cpp_cb_generator.cc that write the source file around its services.
use grpc_cb.Base.{Bool, not, ℕ, List, [], ◌∷◌, ◌++◌, Bytes, codes, if◌then◌else◌}
use grpc_cb.Helpers.Strip.{strip_proto}
use grpc_cb.Helpers.Tokenize.{tokenize}
use grpc_cb.Helpers.Identifier.{filename_identifier}
use grpc_cb.Helpers.Descriptors.{ServiceDescriptor, FileDescriptor}
use grpc_cb.Generator.Printing.{
  Action, set, print, print_plain, for_each, for_index, as_string, Parameters,
}
use grpc_cb.Generator.Header.{is_empty}

unfoldable pub get_source_prologue : FileDescriptor → Parameters → List Action
get_source_prologue file params =
    set "filename" file.name
    ∷ set "filename_base" (strip_proto file.name)
    ∷ print ("// Generated by the gRPC protobuf plugin.\n" ∷ [])
    ∷ print ("// If you make any local change, they will be lost.\n" ∷ [])
    ∷ print ("// source: $filename$\n\n" ∷ [])
    ∷ print ("#include \"$filename_base$.grpc_cb.pb.h\"\n" ∷ [])
    ∷ print ("\n" ∷ [])
    ∷ []

unfoldable pub open_source_part : Bytes → List Action
open_source_part part =
    set "part" part ∷ print ("// package $part$\n" ∷ []) ∷ print ("namespace $part$ {\n" ∷ []) ∷ []

unfoldable pub get_source_includes : FileDescriptor → Parameters → List Action
unfolding open_source_part for_each
get_source_includes file params =
    print_plain ("#include <google/protobuf/descriptor.h>\n" ∷ [])
    ∷ print_plain ("#include <google/protobuf/stubs/once.h>\n" ∷ [])
    ∷ print_plain ("\n" ∷ [])
    ∷ ((if is_empty file.package_name
          then []
          else for_each open_source_part (tokenize file.package_name (codes ".")))
        ++ print ("\n" ∷ []) ∷ [])

unfoldable pub assign_descriptors_name : Bytes → Bytes
assign_descriptors_name filename = codes "AssignDesc_" ++ filename_identifier filename

abbrev pub has_descriptor_methods : FileDescriptor → Bool
has_descriptor_methods file = not file.lite_runtime

unfoldable pub declare_descriptor : ServiceDescriptor → List Action
declare_descriptor service =
    set "Service" service.name
    ∷ print (
        "const ::google::protobuf::ServiceDescriptor*\n"
        ∷ "service_descriptor_$Service$ = nullptr;\n" ∷ [])
    ∷ []

unfoldable pub assign_descriptor : ℕ → ServiceDescriptor → List Action
assign_descriptor i service =
    set "Service" service.name
    ∷ set "Idx" (as_string i)
    ∷ print ("  service_descriptor_$Service$ = file->service($Idx$);\n" ∷ [])
    ∷ []

-- The branch for a file with descriptor methods.
unfoldable pub descriptor_methods : FileDescriptor → List Action
unfolding assign_descriptor for_index
descriptor_methods file =
    print (
      "void $AssignDescriptorsName$() {\n" ∷ "  // Get the file's descriptor from the pool.\n"
      ∷ "  const ::google::protobuf::FileDescriptor* file =\n"
      ∷ "    ::google::protobuf::DescriptorPool::generated_pool()->FindFileByName(\n"
      ∷ "      \"$filename$\");\n" ∷ [])
    ∷ print_plain ("  GOOGLE_CHECK(file != NULL);\n" ∷ [])
    ∷ (for_index assign_descriptor 0 file.services
        ++ print ("}  // $AssignDescriptorsName$()\n" ∷ "\n" ∷ [])
          ∷ print (
              "GOOGLE_PROTOBUF_DECLARE_ONCE(grpc_cb_AssignDescriptors_once_);\n"
              ∷ "inline void AssignDescriptorsOnce() {\n"
              ∷ "  ::google::protobuf::GoogleOnceInit(\n"
              ∷ "    &grpc_cb_AssignDescriptors_once_,\n" ∷ "    &$AssignDescriptorsName$);\n"
              ∷ "}\n" ∷ "\n" ∷ [])
          ∷ print_plain ("}  // namespace\n" ∷ "\n" ∷ [])
          ∷ [])

unfoldable pub get_source_descriptors : FileDescriptor → Parameters → List Action
unfolding declare_descriptor descriptor_methods for_each
get_source_descriptors file params =
    set "filename" file.name
    ∷ set "AssignDescriptorsName" (assign_descriptors_name file.name)
    ∷ print ("namespace {\n" ∷ "\n" ∷ [])
    ∷ (for_each declare_descriptor file.services
        ++ print_plain ("\n" ∷ [])
          ∷ (if has_descriptor_methods file then descriptor_methods file else []))

-- `for (…) { temp.append("}  // namespace "); temp.append(*part); temp.append("\n"); }`
unfoldable pub append_closed : Bytes → List Bytes → Bytes
append_closed temp [] = temp
append_closed temp (part ∷ parts) =
    append_closed (((temp ++ codes "}  // namespace ") ++ part) ++ codes "\n") parts

-- This function builds its text with no printer.
unfoldable pub get_source_epilogue : FileDescriptor → Parameters → Bytes
unfolding append_closed
get_source_epilogue file params =
    if is_empty file.package_name
    then []
    else append_closed [] (tokenize file.package_name (codes ".")) ++ codes "\n"
