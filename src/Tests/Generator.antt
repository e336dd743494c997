-- ===== src/Tests/Generator.antt =====
-- Runs of the generator and of the plugin, and their theorems at concrete inputs.
use grpc_cb.Base.{bytes_eq}
use grpc_cb.Helpers.Tokenize.{tokenize}
use grpc_cb.Plugin.{refused}
use grpc_cb.Plugin.Settings.{generate-unknown}
use grpc_cb.Base.{
  ◌≡◌, refl, none, some, List, [], ◌∷◌, ◌++◌, map, flat_map, arith, Bytes, codes, if◌then◌else◌,
  All,
}
use grpc_cb.Helpers.Tokenize.Joined.{join}
use grpc_cb.Generator.Printing.{calls}
use grpc_cb.Generator.Header.{
  is_empty, get_header_prologue, get_header_includes, get_header_services, get_header_epilogue,
}
use grpc_cb.Generator.Source.{
  get_source_prologue, get_source_includes, get_source_descriptors, get_source_epilogue,
}
use grpc_cb.Generator.Service.{get_source_services}
use grpc_cb.Generator.Server.{print_call_method}
use grpc_cb.Generator.Sample.{substituting, route_guide, route_guide_file, no_parameters}
use grpc_cb.Generator.Variables.{IsDefined}
use grpc_cb.Generator.Defined.Header.{header-IsDefined}
use grpc_cb.Generator.Defined.Source.{source-IsDefined}
use grpc_cb.Generator.Indentation.{IsBalanced, get_header_services-IsBalanced}
use grpc_cb.Generator.Namespaces.{parts, parts_at, opening, closing_line, source-parts}
use grpc_cb.Generator.Dispatch.{cases_of, cases_from, print_call_method-cases}
use grpc_cb.Plugin.{ok, fault, generate}
use grpc_cb.Plugin.Settings.{
  two_files, setting, IsValue, namespace, after, generate-settings, generate-fault,
}

header-IsDefined_example :
    All IsDefined (calls [] (get_header_prologue route_guide_file no_parameters))
    × All IsDefined (calls [] (get_header_includes route_guide_file no_parameters))
    × All IsDefined (calls [] (get_header_services route_guide_file no_parameters))
    × All IsDefined (calls [] (get_header_epilogue route_guide_file no_parameters))
header-IsDefined_example = header-IsDefined route_guide_file no_parameters

source-IsDefined_example :
    All IsDefined (calls [] (get_source_prologue route_guide_file no_parameters))
    × All IsDefined (calls [] (get_source_includes route_guide_file no_parameters))
    × All IsDefined (calls [] (get_source_descriptors route_guide_file no_parameters))
    × All IsDefined (calls [] (get_source_services route_guide_file no_parameters))
source-IsDefined_example = source-IsDefined route_guide_file no_parameters

get_header_services-IsBalanced_example :
    IsBalanced (get_header_services route_guide_file no_parameters)
get_header_services-IsBalanced_example =
    get_header_services-IsBalanced route_guide_file no_parameters

source-parts_example :
    (parts_at opening (calls [] (get_source_includes route_guide_file no_parameters))
      ≡ map some (parts route_guide_file))
    × (get_source_epilogue route_guide_file no_parameters
        ≡ flat_map closing_line (parts route_guide_file)
          ++ (if is_empty (codes "routeguide") then [] else codes "\n"))
source-parts_example = source-parts route_guide_file no_parameters

print_call_method-cases_example :
    cases_of none (calls [] (print_call_method route_guide)) ≡ cases_from 0 route_guide.methods
print_call_method-cases_example = print_call_method-cases route_guide []

abbrev two_values : List Bytes
two_values = codes "a" ∷ codes "b" ∷ []

two_values-IsValue : All IsValue two_values
two_values-IsValue =
    (((omega arith, tt), (omega arith, tt)), (((omega arith, tt), (omega arith, tt)), tt))

generate-settings_example :
    generate substituting route_guide_file (join b',' (map setting two_values))
    ≡ ok (two_files substituting route_guide_file (after (namespace []) two_values))
generate-settings_example =
    generate-settings substituting route_guide_file refl two_values two_values-IsValue

generate-fault_example :
    generate substituting route_guide_file
      (join b',' (map setting two_values ++ codes "services_namespace" ∷ []))
    ≡ fault
generate-fault_example =
    generate-fault substituting route_guide_file refl two_values two_values-IsValue

generate-unknown_example :
    generate substituting route_guide_file (join b',' (map setting two_values ++ codes "x=1" ∷ []))
    ≡ refused (codes "Unknown parameter: " ++ codes "x=1")
unfolding tokenize bytes_eq
generate-unknown_example =
    generate-unknown substituting route_guide_file refl two_values b'x' (codes "=1") (codes "x")
      two_values-IsValue (omega arith, (omega arith, (omega arith, tt))) refl refl
