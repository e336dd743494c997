-- ===== src/Tests/Example.antt =====
-- The theorems on the route guide's service at concrete inputs.
use grpc_cb.Base.{
  ◌≤◌, ◌≡◌, refl, ◌≢◌, ◌↔◌, ◌⊎◌, true, false, Option, none, some, List, [], ◌∷◌, flat_map, Bytes,
}
use grpc_cb.Server.{is_method_client_streaming}
use grpc_cb.Generator.Sample.{route_guide}
use grpc_cb.Example.Dispatch.{calls_record_route, call_method, default_effect, record_route}
use grpc_cb.Example.Calls.{IsRefused, call_method-none_iff, call_method-IsRefused}
use grpc_cb.Tests.Doubles.{slice_list, text_parser}

abbrev a_request : Option (List Bytes)
a_request = some []

call_method-none_iff_example :
    (call_method slice_list text_parser text_parser [] true true true 2 a_request ≡ none) ↔ (
      (4 ≤ 2)
      ⊎ (((is_method_client_streaming route_guide 2 ≡ some true) × (a_request ≢ none))
          ⊎ ((true ≡ false)
              × ((is_method_client_streaming route_guide 2 ≡ some true) ⊎ (a_request ≢ none)))))
call_method-none_iff_example =
    call_method-none_iff slice_list text_parser text_parser [] true true true 2 a_request

call_method-IsRefused_example :
    IsRefused slice_list text_parser text_parser []
      (flat_map (default_effect slice_list text_parser text_parser []) (calls_record_route ∷ []))
unfolding call_method record_route
call_method-IsRefused_example =
    call_method-IsRefused slice_list text_parser text_parser [] true 2 none
      (calls_record_route ∷ []) refl cc
