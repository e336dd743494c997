-- ===== src/Example/Visit/Async/Answers.antt =====
-- What `GetFeatureAsync` prints, and when its `Run` returns.
use grpc_cb.Base.{
  ◌≡◌, refl, sym, ap, ◌∙◌, inl, inr, Bool, true, false, none, some, List, [], ◌∷◌, ◌++◌, map,
  append_assoc, append-nil, Bool-cases, if◌then◌else◌,
}
use mathlib.Core.Bool.{false≢true}
use mathlib.Core.List.{map-append}
use grpc_cb.Example.Points.{Feature}
use grpc_cb.Example.Wire.{Codec, message_type}
use grpc_cb.Example.Awaited.{
  Act, printed, shut_down, Ended, replied, failed, shuts, RunCore, completed,
}
use grpc_cb.Example.Awaited.Returns.{
  completed-read, completed-unread, completed-failed, completed-forgotten, completed-ignored,
}
use grpc_cb.Example.Visit.{print_feature}
use grpc_cb.Example.Visit.Async.{
  Said, says_feature, says_failed, Request, with_reply, with_nothing, with_both,
  get_feature_callbacks, show, show_and_stop, say_and_stop,
}

-- Whether the request with both callbacks is among those that have ended.
abbrev pub has_both : List (Request × Ended) → Bool
has_both [] = false
has_both ((with_reply, ended) ∷ rest) = has_both rest
has_both ((with_nothing, ended) ∷ rest) = has_both rest
has_both ((with_both, ended) ∷ rest) = true

module _ (features : Codec Feature) where
  -- The lines of the request with a callback for the reply only, and of requests none of which has both.
  unfoldable pub reply_line : Ended → List (Act Said)
  reply_line (replied b) =
      if (features.parse b).0
      then printed (says_feature (print_feature (features.parse b).1)) ∷ []
      else []
  reply_line (failed status) = []

  unfoldable pub lines : List (Request × Ended) → List (Act Said)
  unfolding reply_line
  lines [] = []
  lines ((with_reply, ended) ∷ rest) = reply_line ended ++ lines rest
  lines ((with_nothing, ended) ∷ rest) = lines rest
  lines ((with_both, ended) ∷ rest) = lines rest

  -- The line of the request with both, where a reply is a feature.
  unfoldable pub last_line : Ended → Said
  last_line (replied b) = says_feature (print_feature (features.parse b).1)
  last_line (failed status) = says_failed status.details

  abbrev pub IsReadable : Ended → Type 0
  IsReadable (replied b) = (features.parse b).0 ≡ true
  IsReadable (failed status) = Unit

  module _ (core : RunCore Said) where
    unfoldable pub get_feature_ended : Request × Ended → List (Act Said)
    unfolding get_feature_callbacks completed
    get_feature_ended (request, ended) =
        completed (message_type features) core (get_feature_callbacks request) ended

    with_reply-line : (ended : Ended) → get_feature_ended (with_reply, ended) ≡ reply_line ended
    unfolding get_feature_ended get_feature_callbacks reply_line
    with_reply-line (replied b) = elim (Bool-cases (features.parse b).0) [
      | inl ok ↦ completed-read (message_type features) core show none b ok ∙ rw ok refl
      | inr bad ↦ completed-unread (message_type features) core show b bad ∙ rw bad refl
    ]
    with_reply-line (failed status) =
        completed-forgotten (message_type features) core (some show) status

    reply_line-goes_on : (ended : Ended) → shuts (reply_line ended) ≡ false
    unfolding reply_line shuts
    reply_line-goes_on (replied b) = elim (Bool-cases (features.parse b).0) [
      | inl ok ↦ rw ok refl
      | inr bad ↦ rw bad refl
    ]
    reply_line-goes_on (failed status) = refl

    with_nothing-line : (ended : Ended) → get_feature_ended (with_nothing, ended) ≡ []
    unfolding get_feature_ended get_feature_callbacks
    with_nothing-line (replied b) = completed-ignored (message_type features) core none b
    with_nothing-line (failed status) = completed-forgotten (message_type features) core none status

    with_both-line :
        (ended : Ended)
        → IsReadable ended
        → get_feature_ended (with_both, ended) ≡ printed (last_line ended) ∷ shut_down ∷ []
    unfolding get_feature_ended get_feature_callbacks last_line
    with_both-line (replied b) ok =
        completed-read (message_type features) core show_and_stop (some say_and_stop) b ok
    with_both-line (failed status) ok =
        completed-failed (message_type features) core (some show_and_stop) say_and_stop status

    run-lines :
        (before : List (Request × Ended)) (rest : List (List (Act Said)))
        → has_both before ≡ false
        → core.run (map get_feature_ended before ++ rest)
          ≡ (lines before ++ (core.run rest).0, (core.run rest).1)
    unfolding lines shuts
    run-lines [] rest h = refl
    run-lines ((with_reply, ended) ∷ before) rest h = rw (with_reply-line ended) (
        core.run-goes_on (reply_line ended) (map get_feature_ended before ++ rest)
          (reply_line-goes_on ended)
        ∙ ap (λ r. (reply_line ended ++ r.0, r.1)) (run-lines before rest h)
        ∙ ap (λ l. (l, (core.run rest).1))
            (sym (append_assoc (reply_line ended) (lines before) (core.run rest).0)))
    run-lines ((with_nothing, ended) ∷ before) rest h =
        rw (with_nothing-line ended) (
          core.run-goes_on [] (map get_feature_ended before ++ rest) refl ∙ run-lines before rest h)
    run-lines ((with_both, ended) ∷ before) rest h = absurd (false≢true (sym h))

    -- In whatever order the calls of `GetFeatureAsync` end: as long as the one with both callbacks
    -- has not, `Run` goes on, and what is printed are the features that came for the request with a
    -- callback for the reply. When that call ends, with a reply that parses or with an error, its
    -- line is printed as the last, and `Run` returns, whatever ends behind it.
    pub get_feature_async-returns :
        (before after : List (Request × Ended)) (ended : Ended)
        → has_both before ≡ false
        → IsReadable ended
        → (core.run (map get_feature_ended before) ≡ (lines before, false))
          × (core.run (map get_feature_ended (before ++ (with_both, ended) ∷ after))
              ≡ (lines before ++ printed (last_line ended) ∷ shut_down ∷ [], true))
    unfolding shuts
    get_feature_async-returns before after ended h ok =
        let line = with_both-line ended ok in
        let rest = map get_feature_ended after in
        (
          ap core.run (sym (append-nil (map get_feature_ended before)))
              ∙ run-lines before [] h
              ∙ ap (λ r. (lines before ++ r.0, r.1)) core.run-waits
              ∙ ap (λ l. (l, false)) (append-nil (lines before)),
          ap core.run (map-append get_feature_ended before ((with_both, ended) ∷ after))
              ∙ run-lines before (get_feature_ended (with_both, ended) ∷ rest) h
              ∙ ap (λ r. (lines before ++ r.0, r.1))
                  (ap (λ acts. core.run (acts ∷ rest)) line
                    ∙ core.run-returns (printed (last_line ended) ∷ shut_down ∷ []) rest refl),
        )
