-- ===== src/Example/Visit/Talk/Ending.antt =====
-- A chat comes to an end, in whichever order its threads go on.
use mathlib.Core.List.{map-append}
use mathlib.Core.Path.{subst}
use grpc_cb.Base.{
  ℕ, ◌+◌, ◌*◌, ◌≤◌, ◌≡◌, refl, sym, ap, ◌∙◌, ◌⊎◌, inl, inr, Bool, true, false, some, List, [], ◌∷◌,
  ◌++◌, map, append-nil, arith, Bool-cases, length, length-append, if◌then◌else◌, All-append_right,
}
use grpc_cb.ProtoUtils.Status.{status_ok}
use grpc_cb.Client.{AsyncCore}
use grpc_cb.Server.{WriterCore, get_writer}
use grpc_cb.Example.Points.{RouteNote}
use grpc_cb.Example.Wire.{Codec, AllText, message_type, WriterView}
use grpc_cb.Example.Chat.{ChatReader, on_end, route_chat}
use grpc_cb.Example.Chat.Board.{empty_board, board_of, answers}
use grpc_cb.Example.Visit.{write_notes, run_write_route_note, route_notes}
use grpc_cb.Example.Visit.Talk.{
  Talk, start_talk, Step, writes, closes, arrives, reads, ends, finishes, joins, asks, Phase,
  reading, joining, asking, returned, phases_done, Reach, here, next, steps, IsOver, ClosingView,
}
use grpc_cb.Example.Visit.Talk.Handling.{some_eq, handle-Handles}
use grpc_cb.Example.Visit.Talk.Invariant.{IsTalk}
use grpc_cb.Example.Visit.Talk.Reached.{Reach-IsTalk, answered-writer, on_msg_str-serialize}
use grpc_cb.Example.Visit.Talk.Heard.{waiting, messages-handled, answers-shown, told-AllText}

one_bit : (b : Bool) → (if b then 1 else 0) ≤ 1
one_bit b = ground arith

three_phases : (p : Phase) → phases_done p ≤ 3
three_phases reading = omega arith
three_phases joining = omega arith
three_phases asking = omega arith
three_phases (returned status) = omega arith

List-cases {ℓ} :
    {A : Type ℓ} (xs : List A) → (xs ≡ []) ⊎ ((x : A) × (rest : List A) × (xs ≡ x ∷ rest))
List-cases [] = inl refl
List-cases (x ∷ xs) = inr (x, xs, refl)

module _ (notes : Codec RouteNote) (client : AsyncCore (message_type notes))
    (sends : WriterView client.write) (core : WriterCore) (view : WriterView core.write)
    (messages : List RouteNote) (c : client.State) (w : core.State) where
  abbrev GoesOn : Talk notes client sends core view → Type 0
  GoesOn t = (u : Talk notes client sends core view) × Step notes client sends core view t u

  arrives-GoesOn :
      (t : Talk notes client sends core view) (n : ℕ) (m : RouteNote) (rest : List RouteNote)
      (v : IsTalk notes client sends core view messages c w t n)
      → sends.written c ≡ []
      → v.coming ≡ m ∷ rest
      → notes.is_text m ≡ true
      → GoesOn t
  arrives-GoesOn t n m rest v fresh e text =
      let handled = handle-Handles notes core view m _ v.chat refl in
      let r : ChatReader notes core = record {
        streaming = record { writer_uptr = some handled.shows.writer };
        received_notes = handled.shows.received_notes;
      } in
      let b = notes.serialize m in
      (
        record t { arrived = t.arrived ++ b ∷ []; reader = r },
        arrives t b (map notes.serialize rest) r
            (v.sending.wrote
              ∙ ap (λ l. l ++ map notes.serialize v.sending.sent) fresh
              ∙ ap (map notes.serialize) (v.sent ∙ ap (λ l. v.handled ++ l) e)
              ∙ map-append notes.serialize v.handled (m ∷ rest)
              ∙ ap (λ l. l ++ b ∷ map notes.serialize rest) (sym v.came))
            (on_msg_str-serialize notes client sends core view messages c w m t.reader text
              ∙ ap (λ run. (status_ok, run)) handled.shows.runs),
      )

  reads-GoesOn :
      (t : Talk notes client sends core view) (n : ℕ) (m : RouteNote) (rest : List RouteNote)
      (v : IsTalk notes client sends core view messages c w t n)
      → view.written w ≡ []
      → v.ahead ≡ m ∷ rest
      → t.phase ≡ reading
      → GoesOn t
  reads-GoesOn t n m rest v silent e on =
      let text : notes.is_text m ≡ true =
        (subst (λ l. AllText notes (l ++ v.chat.wrote.lost)) e
          (All-append_right (λ m. notes.is_text m ≡ true) v.shown (v.ahead ++ v.chat.wrote.lost)
            (told-AllText notes client sends core view messages c w t v))).0 in
      (
        record t { read = t.read ++ notes.serialize m ∷ [] },
        reads t (notes.serialize m) (map notes.serialize rest) on
            (answered-writer notes client sends core view messages c w t n v silent
              ∙ ap (λ l. map notes.serialize v.shown ++ map notes.serialize l) e
              ∙ ap (λ l. l ++ map notes.serialize (m ∷ rest)) (sym v.seen))
            (ap (λ p. p.0) (notes.parse-serialize m text)),
      )

  -- The server can be told of the end: its reader has the writer that it was started with.
  ends-GoesOn :
      (t : Talk notes client sends core view) (n : ℕ)
      → IsTalk notes client sends core view messages c w t n
      → t.closed ≡ true
      → sends.written t.stream ≡ t.arrived
      → t.ended ≡ false
      → GoesOn t
  unfolding on_end get_writer
  ends-GoesOn t n v shut came open_end =
      (_, ends t _ shut came open_end (ap (on_end notes core) (some_eq v.chat.runs)))

  -- Nothing is left to be written, by the client or the server.
  settled-GoesOn :
      (t : Talk notes client sends core view) (n : ℕ) (phase : Phase)
      → IsTalk notes client sends core view messages c w t n
      → view.written w ≡ []
      → t.unsent ≡ []
      → t.closed ≡ true
      → t.ended ≡ true
      → t.phase ≡ phase
      → IsOver notes client sends core view t ⊎ GoesOn t
  settled-GoesOn t n reading v silent unsent closed ended on = elim (List-cases v.ahead) [
    | inr (m, rest, e) ↦ inr (reads-GoesOn t n m rest v silent e on)
    | inl told ↦ inr (
      _,
      finishes t on ended (
          answered-writer notes client sends core view messages c w t n v silent
          ∙ ap (λ l. map notes.serialize v.shown ++ map notes.serialize l) told
          ∙ append-nil (map notes.serialize v.shown)
          ∙ sym v.seen),
    )
  ]
  settled-GoesOn t n joining v silent unsent closed ended on = inr (_, joins t on unsent closed)
  settled-GoesOn t n asking v silent unsent closed ended on = inr (_, asks t status_ok on)
  settled-GoesOn t n (returned status) v silent unsent closed ended on =
      inl (record { status = status; phase = on })

  coming-text :
      (t : Talk notes client sends core view) (n : ℕ) (m : RouteNote) (rest : List RouteNote)
      (v : IsTalk notes client sends core view messages c w t n)
      → AllText notes messages
      → v.coming ≡ m ∷ rest
      → notes.is_text m ≡ true
  coming-text t n m rest v texts e =
      (subst (λ l. AllText notes (l ++ (v.sending.lost ++ t.unsent))) e
        (All-append_right (λ m. notes.is_text m ≡ true) v.handled
          (waiting notes client sends core view messages c w t v)
          (subst (AllText notes) (messages-handled notes client sends core view messages c w t v)
            texts))).0

  all-arrived :
      (t : Talk notes client sends core view) (n : ℕ)
      (v : IsTalk notes client sends core view messages c w t n)
      → sends.written c ≡ []
      → v.coming ≡ []
      → sends.written t.stream ≡ t.arrived
  all-arrived t n v fresh came =
      v.sending.wrote
      ∙ ap (λ l. l ++ map notes.serialize v.sending.sent) fresh
      ∙ ap (map notes.serialize) (v.sent ∙ ap (λ l. v.handled ++ l) came ∙ append-nil v.handled)
      ∙ sym v.came

  IsOver-or_on :
      (t : Talk notes client sends core view) (n : ℕ)
      → IsTalk notes client sends core view messages c w t n
      → AllText notes messages
      → sends.written c ≡ []
      → view.written w ≡ []
      → IsOver notes client sends core view t ⊎ GoesOn t
  IsOver-or_on t n v texts fresh silent = elim (List-cases t.unsent) [
    | inr (m, rest, e) ↦ inr (_, writes t m rest e)
    | inl unsent ↦ elim (Bool-cases t.closed) [
      | inr open_end ↦ inr (_, closes t unsent open_end)
      | inl closed ↦ elim (List-cases v.coming) [
        | inr (m, rest, e) ↦
            inr (arrives-GoesOn t n m rest v fresh e (coming-text t n m rest v texts e))
        | inl came ↦ elim (Bool-cases t.ended) [
          | inr going ↦ inr (ends-GoesOn t n v closed (all-arrived t n v fresh came) going)
          | inl ended ↦ settled-GoesOn t n t.phase v silent unsent closed ended refl
        ]
      ]
    ]
  ]

  -- In whichever order the two threads of the client and the server go on, on streams that were fresh,
  -- with notes whose text is UTF-8: until `SyncRouteChat` has returned, with its reading loop ended, the
  -- writing thread joined and the status received, one of the three can go on, the server without a
  -- failed assert; and there are at most two steps for each note, one for each answer, and five for
  -- closing, telling the server of the end, and the client's way out.
  pub talk-ends :
      {t : Talk notes client sends core view}
      → ClosingView notes client sends
      → AllText notes messages
      → sends.written c ≡ []
      → view.written w ≡ []
      → (r : Reach notes client sends core view
          (start_talk notes client sends core view messages c w)
          t)
      → (IsOver notes client sends core view t ⊎ GoesOn t)
        × (steps notes client sends core view r
            ≤ 2 * length messages + 5 + length (answers empty_board messages))
  talk-ends {t} closing texts fresh silent r =
      let v = Reach-IsTalk notes client sends core view messages c w closing fresh silent r in
      let rest = waiting notes client sends core view messages c w t v in
      let later = (v.ahead ++ v.chat.wrote.lost) ++ answers (board_of empty_board v.handled) rest in
      (
        IsOver-or_on t _ v texts fresh silent,
        omega (
          arith,
          v.counted,
          one_bit t.closed,
          one_bit t.ended,
          three_phases t.phase,
          ap length v.split,
          length-append v.said t.unsent,
          ap length (messages-handled notes client sends core view messages c w t v),
          length-append v.handled rest,
          ap length (answers-shown notes client sends core view messages c w t v),
          length-append v.shown later,
        ),
      )

module _ (notes : Codec RouteNote) (client : AsyncCore (message_type notes))
    (sends : WriterView client.write) (core : WriterCore) (view : WriterView core.write) where
  abbrev writing : List RouteNote → client.State → core.State → Talk notes client sends core view
  writing messages stream w = record {
    unsent = messages;
    stream = stream;
    closed = false;
    arrived = [];
    reader = route_chat notes core w;
    ended = false;
    read = [];
    phase = reading;
  }

  writing-Reach :
      (s : Talk notes client sends core view) (messages : List RouteNote) (stream : client.State)
      (w : core.State)
      → Reach notes client sends core view s (writing messages stream w)
      → Reach notes client sends core view s
          (writing [] (write_notes notes client messages stream) w)
  unfolding write_notes
  writing-Reach s [] stream w r = r
  writing-Reach s (m ∷ ms) stream w r =
      writing-Reach s ms _ w (next r (writes (writing (m ∷ ms) stream w) m ms refl))

  -- The steps of the writing thread alone are those of `RunWriteRouteNote`.
  run_write_route_note-Reach :
      (c : client.State) (w : core.State)
      → Reach notes client sends core view
          (start_talk notes client sends core view route_notes c w)
          (record (writing [] (run_write_route_note notes client c) w) { closed = true })
  unfolding start_talk run_write_route_note
  run_write_route_note-Reach c w =
      next (writing-Reach (writing route_notes c w) route_notes c w here)
        (closes (writing [] (write_notes notes client route_notes c) w) refl refl)
