-- ===== src/Generator/Kinds.antt =====
-- The four kinds of method, which are the values of its two flags.
use grpc_cb.Base.{Bool, true, false, Bytes}
use grpc_cb.Helpers.Descriptors.{Descriptor, MethodDescriptor}

-- The record of a method from its parts, so that a proof can split on the flags.
abbrev pub method_of : Bytes → Descriptor → Descriptor → Bool → Bool → MethodDescriptor
method_of name input output client server = record {
  name = name;
  input_type = input;
  output_type = output;
  client_streaming = client;
  server_streaming = server;
}

-- What holds for the four kinds of method holds for every method.
pub by_kind :
    (P : MethodDescriptor → Type 0)
    → ((n : Bytes) (i o : Descriptor) → P (method_of n i o false false))
    → ((n : Bytes) (i o : Descriptor) → P (method_of n i o true false))
    → ((n : Bytes) (i o : Descriptor) → P (method_of n i o false true))
    → ((n : Bytes) (i o : Descriptor) → P (method_of n i o true true))
    → (m : MethodDescriptor) → P m
by_kind P unary client server bidi m = go m.client_streaming m.server_streaming
  where
    go : (c s : Bool) → P (method_of m.name m.input_type m.output_type c s)
    go false false = unary m.name m.input_type m.output_type
    go true false = client m.name m.input_type m.output_type
    go false true = server m.name m.input_type m.output_type
    go true true = bidi m.name m.input_type m.output_type
