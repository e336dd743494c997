-- ===== src/Example/Calls.antt =====
-- What `CallMethod` of the route guide's service does, against the descriptor of the service.
use grpc_cb.Base.{
  ℕ, zero, suc, ◌≤◌, ◌≡◌, refl, ap, ◌≢◌, ◌↔◌, ◌⊎◌, inl, inr, Bool, true, false, Option, none, some,
  List, [], ◌∷◌, flat_map, arith, Bool-cases,
}
use mathlib.Core.Path.{subst}
use grpc_cb.Base.Int.{pos}
use grpc_cb.ProtoUtils.Status.{Status, unimplemented, is_ok}
use grpc_cb.ProtoUtils.Reader.{SliceReader}
use grpc_cb.ProtoUtils.Messages.{ParserApi, deserialize, IsParsed, deserialize_iff}
use grpc_cb.Server.{is_method_client_streaming}
use grpc_cb.Generator.Sample.{route_guide}
use grpc_cb.Example.Dispatch.{
  Effect, calls_get_feature, replies_error, closes, message_of, get_feature, list_features,
  record_route, route_chat, call_method, default_effect,
}

module _ (slices : SliceReader) (points rectangles : ParserApi slices) (unset : slices.State) where
  -- One answer that is an error.
  pub record IsRefused (effects : List (Effect slices points rectangles unset)) : Type 0 where
    pub status : Status
    pub failed : is_ok status ≡ false
    pub answered : (effects ≡ replies_error status ∷ []) ⊎ (effects ≡ closes status ∷ [])

  -- `CallMethod` fails an assert exactly if the index is not that of a method, or the method takes a
  -- stream from the client and yet a request is given, or the call is not set although the method takes
  -- a stream or a request is given.
  pub call_method-none_iff :
      (call records chats : Bool) (i : ℕ) (request : Option slices.Buffer)
      → (call_method slices points rectangles unset call records chats i request ≡ none) ↔ (
          (4 ≤ i)
          ⊎ (((is_method_client_streaming route_guide i ≡ some true) × (request ≢ none))
              ⊎ ((call ≡ false)
                  × ((is_method_client_streaming route_guide i ≡ some true) ⊎ (request ≢ none)))))
  unfolding call_method record_route route_chat is_method_client_streaming
  call_method-none_iff true records chats zero none = grind arith
  call_method-none_iff true records chats zero (some b) = grind arith
  call_method-none_iff true records chats (suc zero) none = grind arith
  call_method-none_iff true records chats (suc zero) (some b) = grind arith
  call_method-none_iff true records chats (suc (suc zero)) none = grind arith
  call_method-none_iff true records chats (suc (suc zero)) (some b) = grind arith
  call_method-none_iff true records chats (suc (suc (suc zero))) none = grind arith
  call_method-none_iff true records chats (suc (suc (suc zero))) (some b) = grind arith
  call_method-none_iff false records chats zero none = grind arith
  call_method-none_iff false records chats zero (some b) = grind arith
  call_method-none_iff false records chats (suc zero) none = grind arith
  call_method-none_iff false records chats (suc zero) (some b) = grind arith
  call_method-none_iff false records chats (suc (suc zero)) none = grind arith
  call_method-none_iff false records chats (suc (suc zero)) (some b) = grind arith
  call_method-none_iff false records chats (suc (suc (suc zero))) none = grind arith
  call_method-none_iff false records chats (suc (suc (suc zero))) (some b) = grind arith
  call_method-none_iff call records chats (suc (suc (suc (suc n)))) request =
      (λ e. inl (omega arith), λ e. refl)

  get_feature-IsRefused :
      (b : slices.Buffer)
      → IsRefused (
          flat_map
            (default_effect slices points rectangles unset)
            (get_feature slices points rectangles unset b))
  unfolding get_feature default_effect flat_map
  get_feature-IsRefused b =
      let status = deserialize slices points unset (some b) (pos 0) in
      elim (Bool-cases (is_ok status)) [
        | inl e ↦ rw e (record { status = unimplemented; failed = refl; answered = inl refl })
        | inr e ↦ rw e (record { status = status; failed = e; answered = inl refl })
      ]

  list_features-IsRefused :
      (b : slices.Buffer)
      → IsRefused (
          flat_map
            (default_effect slices points rectangles unset)
            (list_features slices points rectangles unset b))
  unfolding list_features default_effect flat_map
  list_features-IsRefused b =
      let status = deserialize slices rectangles unset (some b) (pos 0) in
      elim (Bool-cases (is_ok status)) [
        | inl e ↦ rw e (record { status = unimplemented; failed = refl; answered = inr refl })
        | inr e ↦ rw e (record { status = status; failed = e; answered = inr refl })
      ]

  abbrev Effects : Type 0
  Effects = List (Effect slices points rectangles unset)

  abbrev defaults : Effects → Effects
  defaults effects = flat_map (default_effect slices points rectangles unset) effects

  IsRefused-same :
      {done : Effects} {effects : Effects}
      → some done ≡ some effects
      → IsRefused (defaults done)
      → IsRefused (defaults effects)
  IsRefused-same {done} {effects} e p =
      let same : done ≡ effects = cc in subst (λ l. IsRefused (defaults l)) same p

  -- With the virtual functions as generated, a call that fails no assert and does not come without
  -- the request that its method needs is answered once, with an error.
  pub call_method-IsRefused :
      (call : Bool) (i : ℕ) (request : Option slices.Buffer)
      (effects : List (Effect slices points rectangles unset))
      → call_method slices points rectangles unset call false false i request ≡ some effects
      → effects ≢ []
      → IsRefused (flat_map (default_effect slices points rectangles unset) effects)
  unfolding call_method record_route route_chat default_effect flat_map
  call_method-IsRefused call zero none es e h = absurd (h (cc))
  call_method-IsRefused true zero (some b) es e h = IsRefused-same e (get_feature-IsRefused b)
  call_method-IsRefused false zero (some b) es e h = cc
  call_method-IsRefused call (suc zero) none es e h = absurd (h (cc))
  call_method-IsRefused true (suc zero) (some b) es e h =
      IsRefused-same e (list_features-IsRefused b)
  call_method-IsRefused false (suc zero) (some b) es e h = cc
  call_method-IsRefused true (suc (suc zero)) none es e h =
      IsRefused-same e (record { status = unimplemented; failed = refl; answered = inl refl })
  call_method-IsRefused false (suc (suc zero)) none es e h = cc
  call_method-IsRefused call (suc (suc zero)) (some b) es e h = cc
  call_method-IsRefused true (suc (suc (suc zero))) none es e h =
      IsRefused-same e (record { status = unimplemented; failed = refl; answered = inr refl })
  call_method-IsRefused false (suc (suc (suc zero))) none es e h = cc
  call_method-IsRefused call (suc (suc (suc zero))) (some b) es e h = cc
  call_method-IsRefused call (suc (suc (suc (suc n)))) request es e h = cc

  call_parsed :
      (b : slices.Buffer)
      → (get_feature slices points rectangles unset b
          ≡ calls_get_feature (message_of slices points rectangles unset points b) ∷ [])
        ↔ (is_ok (deserialize slices points unset (some b) (pos 0)) ≡ true)
  unfolding get_feature
  call_parsed b =
      let status = deserialize slices points unset (some b) (pos 0) in
      elim (Bool-cases (is_ok status)) [
        | inl e ↦ (λ _. e, λ _. rw e refl)
        | inr e ↦ (λ h. grind arith, λ h. cc)
      ]

  -- With a call that is set, `GetFeature` of the user is called, with the message that was parsed,
  -- exactly if a reader can be set up over the request's buffer, the message parses, and the whole
  -- of the buffer is read.
  pub call_method-IsParsed :
      (records chats : Bool) (b : slices.Buffer)
      → (call_method slices points rectangles unset true records chats 0 (some b)
          ≡ some (calls_get_feature (message_of slices points rectangles unset points b) ∷ []))
        ↔ IsParsed slices points unset (some b) (pos 0)
  unfolding call_method
  call_method-IsParsed records chats b =
      let (to, from) = call_parsed b in
      let (parsed, ok) = deserialize_iff slices points unset (some b) (pos 0) in
      (λ e. parsed (to (cc)), λ p. ap some (from (ok p)))
