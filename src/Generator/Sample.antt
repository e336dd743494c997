-- ===== src/Generator/Sample.antt =====
-- The file descriptors of examples/protos/route_guide.proto and helloworld.proto, and a renderer
-- that substitutes the variables and indents by two spaces, with which the generator can be run.
use Prim.Native.Nat.{pred}
use grpc_cb.Base.{
  ℕ, zero, suc, Bool, true, false, Option, none, some, List, [], ◌∷◌, ◌++◌, Bytes, codes, ◌==◌,
  if◌then◌else◌,
}
use grpc_cb.Helpers.Descriptors.{
  Descriptor, outermost, MethodDescriptor, ServiceDescriptor, FileDescriptor,
}
use grpc_cb.Generator.Printing.{
  Vars, lookup, Call, printed, indented, outdented, calls, Renderer, Parameters,
}
use grpc_cb.Generator.Header.{
  get_header_prologue, get_header_includes, get_header_services, get_header_epilogue,
}
use grpc_cb.Generator.Source.{
  get_source_prologue, get_source_includes, get_source_descriptors, get_source_epilogue,
}
use grpc_cb.Generator.Service.{get_source_services}

spaces : ℕ → Bytes
spaces zero = []
spaces (suc n) = b' ' ∷ b' ' ∷ spaces n

value_of : Vars → Bytes → Bytes
unfolding lookup
value_of vars key = elim (lookup key vars) [ none ↦ [] | some v ↦ v ]

-- The state is the level, whether a line has begun, and the name that is being read.
expand : Vars → ℕ → Bool → Option Bytes → Bytes → Bytes × Bool
unfolding value_of spaces
expand vars level at_start name [] = ([], at_start)
expand vars level at_start (some name) (c ∷ s) =
    if c == b'$'
    then (let (t, a) = expand vars level false none s in
        ((if at_start then spaces level else []) ++ (value_of vars name ++ t), a))
    else expand vars level at_start (some (name ++ c ∷ [])) s
expand vars level at_start none (c ∷ s) =
    if c == b'$'
    then expand vars level at_start (some []) s
    else if c == b'\n'
    then (let (t, a) = expand vars level true none s in (c ∷ t, a))
    else (let (t, a) = expand vars level false none s in
        ((if at_start then spaces level else []) ++ c ∷ t, a))

render_from : ℕ → Bool → List Call → Bytes
unfolding expand
render_from level at_start [] = []
render_from level at_start (printed vars text ∷ rest) =
    let (t, a) = expand vars level at_start none text in t ++ render_from level a rest
render_from level at_start (indented ∷ rest) = render_from (suc level) at_start rest
render_from level at_start (outdented ∷ rest) = render_from (pred level) at_start rest

unfoldable pub substituting : Renderer
unfolding render_from
substituting cs = render_from 0 true cs

abbrev pub message : Bytes → Descriptor
message short = outermost (codes "routeguide." ++ short) short

abbrev pub get_feature : MethodDescriptor
get_feature = record {
  name = codes "GetFeature";
  input_type = message (codes "Point");
  output_type = message (codes "Feature");
  client_streaming = false;
  server_streaming = false;
}

abbrev pub list_features : MethodDescriptor
list_features = record {
  name = codes "ListFeatures";
  input_type = message (codes "Rectangle");
  output_type = message (codes "Feature");
  client_streaming = false;
  server_streaming = true;
}

abbrev pub record_route : MethodDescriptor
record_route = record {
  name = codes "RecordRoute";
  input_type = message (codes "Point");
  output_type = message (codes "RouteSummary");
  client_streaming = true;
  server_streaming = false;
}

abbrev pub route_chat : MethodDescriptor
route_chat = record {
  name = codes "RouteChat";
  input_type = message (codes "RouteNote");
  output_type = message (codes "RouteNote");
  client_streaming = true;
  server_streaming = true;
}

abbrev pub route_guide : ServiceDescriptor
route_guide = record {
  name = codes "RouteGuide";
  full_name = codes "routeguide.RouteGuide";
  methods = get_feature ∷ list_features ∷ record_route ∷ route_chat ∷ [];
}

abbrev pub route_guide_file : FileDescriptor
route_guide_file = record {
  name = codes "route_guide.proto";
  package_name = codes "routeguide";
  services = route_guide ∷ [];
  cc_generic_services = false;
  lite_runtime = false;
}

abbrev pub no_parameters : Parameters
no_parameters = record { services_namespace = [] }

abbrev pub hello_file : FileDescriptor
hello_file = record {
  name = codes "helloworld.proto";
  package_name = codes "helloworld";
  services =
      record {
        name = codes "Greeter";
        full_name = codes "helloworld.Greeter";
        methods =
            record {
              name = codes "SayHello";
              input_type = outermost (codes "helloworld.HelloRequest") (codes "HelloRequest");
              output_type = outermost (codes "helloworld.HelloReply") (codes "HelloReply");
              client_streaming = false;
              server_streaming = false;
            }
            ∷ [];
      }
      ∷ [];
  cc_generic_services = false;
  lite_runtime = false;
}

-- The two files that are written for a file descriptor.
unfoldable pub header_text : FileDescriptor → Bytes
unfolding substituting calls get_header_prologue get_header_includes get_header_services
    get_header_epilogue
header_text file =
    substituting (calls [] (get_header_prologue file no_parameters))
    ++ (substituting (calls [] (get_header_includes file no_parameters))
        ++ (substituting (calls [] (get_header_services file no_parameters))
            ++ substituting (calls [] (get_header_epilogue file no_parameters))))

unfoldable pub source_text : FileDescriptor → Bytes
unfolding substituting calls get_source_prologue get_source_includes get_source_services
    get_source_descriptors get_source_epilogue
source_text file =
    substituting (calls [] (get_source_prologue file no_parameters))
    ++ (substituting (calls [] (get_source_includes file no_parameters))
        ++ (substituting (calls [] (get_source_descriptors file no_parameters))
            ++ (substituting (calls [] (get_source_services file no_parameters))
                ++ get_source_epilogue file no_parameters)))
