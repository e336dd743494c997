-- ===== src/Helpers/Descriptors.antt =====
-- The descriptors of protobuf, as far as the code generator reads them, and the method kinds of
-- src/compiler/generator_helpers.h and src/compiler/cpp_cb_generator.cc.
use grpc_cb.Base.{◌≡◌, ◌↔◌, Bool, true, not, ◌&&◌, List, arith, Bytes, if◌then◌else◌}

-- `Descriptor`: a message of a file, or one nested in another, with `full_name()` and `name()`.
pub data Descriptor : Type 0 where
  outermost : Bytes → Bytes → Descriptor
  nested : Descriptor → Bytes → Bytes → Descriptor

unfoldable pub full_name : Descriptor → Bytes
full_name (outermost full short) = full
full_name (nested container full short) = full

unfoldable pub short_name : Descriptor → Bytes
short_name (outermost full short) = short
short_name (nested container full short) = short

-- `SourceLocation`, with the comments of a declaration.
pub record SourceLocation : Type 0 where
  pub leading_comments : Bytes
  pub trailing_comments : Bytes
  pub leading_detached_comments : List Bytes

pub record MethodDescriptor : Type 0 where
  pub name : Bytes
  pub input_type : Descriptor
  pub output_type : Descriptor
  pub client_streaming : Bool
  pub server_streaming : Bool

pub record ServiceDescriptor : Type 0 where
  pub name : Bytes
  pub full_name : Bytes
  pub methods : List MethodDescriptor

-- `cc_generic_services` and `lite_runtime` stand for `options().cc_generic_services()` and
-- `options().optimize_for() == LITE_RUNTIME`.
pub record FileDescriptor : Type 0 where
  pub name : Bytes
  pub package_name : Bytes
  pub services : List ServiceDescriptor
  pub cc_generic_services : Bool
  pub lite_runtime : Bool

pub data MethodType : Type 0 where
  methodtype_no_streaming methodtype_client_streaming : MethodType
  methodtype_server_streaming methodtype_bidi_streaming : MethodType

unfoldable pub get_method_type : MethodDescriptor → MethodType
get_method_type method =
    if method.client_streaming
    then (if method.server_streaming
        then methodtype_bidi_streaming
        else methodtype_client_streaming)
    else (if method.server_streaming then methodtype_server_streaming else methodtype_no_streaming)

abbrev pub no_streaming : MethodDescriptor → Bool
no_streaming method = not method.client_streaming && not method.server_streaming

abbrev pub client_only_streaming : MethodDescriptor → Bool
client_only_streaming method = method.client_streaming && not method.server_streaming

abbrev pub server_only_streaming : MethodDescriptor → Bool
server_only_streaming method = not method.client_streaming && method.server_streaming

abbrev pub bidi_streaming : MethodDescriptor → Bool
bidi_streaming method = method.client_streaming && method.server_streaming

-- The four tests of the generator single out the four kinds of `GetMethodType`, each its own.
get_method_type_iff :
    (m : MethodDescriptor)
    → ((no_streaming m ≡ true) ↔ (get_method_type m ≡ methodtype_no_streaming))
      × ((client_only_streaming m ≡ true) ↔ (get_method_type m ≡ methodtype_client_streaming))
      × ((server_only_streaming m ≡ true) ↔ (get_method_type m ≡ methodtype_server_streaming))
      × ((bidi_streaming m ≡ true) ↔ (get_method_type m ≡ methodtype_bidi_streaming))
unfolding get_method_type
get_method_type_iff m = ground arith
