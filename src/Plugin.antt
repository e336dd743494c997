-- ===== src/Plugin.antt =====
-- cpp_cb_plugin.cc of src/compiler: `CppcbGrpcGenerator::Generate`. The printer is a parameter, the
-- text that it writes for the calls that it is given; the files that the plugin opens and writes are
-- the result.
pub mod Settings
use grpc_cb.Base.{
  true, false, none, some, List, [], ◌∷◌, ◌++◌, Bytes, codes, bytes_eq, if◌then◌else◌, get_elem?,
}
use grpc_cb.Helpers.Strip.{strip_proto}
use grpc_cb.Helpers.Tokenize.{tokenize}
use grpc_cb.Helpers.Descriptors.{FileDescriptor}
use grpc_cb.Generator.Printing.{Action, calls, Renderer, Parameters}
use grpc_cb.Generator.Header.{
  is_empty, get_header_prologue, get_header_includes, get_header_services, get_header_epilogue,
}
use grpc_cb.Generator.Source.{
  get_source_prologue, get_source_includes, get_source_descriptors, get_source_epilogue,
}
use grpc_cb.Generator.Service.{get_source_services}

-- `refused` is a result `false` with its error; `fault` is `param[1]` of a parameter with no second
-- part, which is read out of bounds.
pub data Result {ℓ} (A : Type ℓ) : Type ℓ where
  ok : A → Result A
  refused : Bytes → Result A
  fault : Result A

unfoldable pub read_parameters : List Bytes → Parameters → Result Parameters
read_parameters [] params = ok params
read_parameters (p ∷ ps) params =
    let param = tokenize p (codes "=") in
    let unknown : Result Parameters = refused (codes "Unknown parameter: " ++ p) in
    elim (get_elem? param 0) [
      | none ↦ fault
      | some key ↦ elim (bytes_eq key (codes "services_namespace")) [
        | false ↦ unknown
        | true ↦ elim (get_elem? param 1) [
          | none ↦ fault
          | some value ↦ read_parameters ps (record { services_namespace = value })
        ]
      ]
    ]

-- The parameters of a parameter text.
unfoldable pub given : Bytes → Result Parameters
unfolding read_parameters
given parameter =
    let none_given : Parameters = record { services_namespace = [] } in
    if is_empty parameter
    then ok none_given
    else read_parameters (tokenize parameter (codes ",")) none_given

abbrev pub generic_services_error : Bytes
generic_services_error =
    codes "cpp grpc proto compiler plugin does not work with generic "
    ++ (codes "services. To generate cpp grpc APIs, please set \""
        ++ codes "cc_generic_service = false\".")

-- A file that the plugin writes: its name and its content.
pub record OutputFile : Type 0 where
  pub name : Bytes
  pub content : Bytes

module _ (render : Renderer) where
  abbrev run : List Action → Bytes
  run actions = render (calls [] actions)

  unfoldable pub header_code : FileDescriptor → Parameters → Bytes
  header_code file params =
      ((run (get_header_prologue file params) ++ run (get_header_includes file params))
        ++ run (get_header_services file params))
      ++ run (get_header_epilogue file params)

  unfoldable pub source_code : FileDescriptor → Parameters → Bytes
  source_code file params =
      (((run (get_source_prologue file params) ++ run (get_source_includes file params))
          ++ run (get_source_descriptors file params))
        ++ run (get_source_services file params))
      ++ get_source_epilogue file params

  unfoldable pub write_files : FileDescriptor → Parameters → List OutputFile
  unfolding header_code source_code
  write_files file params =
      let file_name = strip_proto file.name in
      record { name = file_name ++ codes ".grpc_cb.pb.h"; content = header_code file params }
      ∷ record { name = file_name ++ codes ".grpc_cb.pb.cc"; content = source_code file params }
      ∷ []

  abbrev pub finish : FileDescriptor → Result Parameters → Result (List OutputFile)
  finish file (ok params) = ok (write_files file params)
  finish file (refused e) = refused e
  finish file fault = fault

  unfoldable pub generate : FileDescriptor → Bytes → Result (List OutputFile)
  unfolding given write_files
  generate file parameter =
      if file.cc_generic_services
      then refused generic_services_error
      else finish file (given parameter)
