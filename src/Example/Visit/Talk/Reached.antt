-- ===== src/Example/Visit/Talk/Reached.antt =====
-- Each step of a chat keeps the invariant.
use mathlib.Core.List.{map-append}
use grpc_cb.Base.{
  ℕ, suc, ◌≡◌, refl, sym, ap, ◌∙◌, some, List, [], ◌∷◌, ◌++◌, ◌>>=◌, map, append-nil, append_assoc,
  arith, Bytes, length-append, inl, inr, true, Bool-cases, All-append,
}
use grpc_cb.ProtoUtils.Status.{status_ok}
use grpc_cb.Messages.{message_error}
use grpc_cb.Client.{AsyncCore}
use grpc_cb.Server.{WriterCore, on_msg_str}
use grpc_cb.Example.Points.{RouteNote}
use grpc_cb.Example.Wire.{Codec, message_type, WriterView}
use grpc_cb.Example.Chat.{ChatReader, on_msg}
use grpc_cb.Example.Chat.Board.{
  empty_board, post, board_of, answers, board_of-append, answers-append,
}
use grpc_cb.Example.Visit.Talk.{
  Talk, start_talk, answered, Step, writes, closes, arrives, reads, ends, refuses, finishes, joins,
  asks, Reach, here, next, steps, ClosingView, Phase, joining, asking, returned, phases_done,
}
use grpc_cb.Example.Visit.Talk.Handling.{some_eq, next_of_map, handle-Handles}
use grpc_cb.Example.Visit.Talk.Invariant.{
  IsTalk, start-IsTalk, writes-IsTalk, closes-IsTalk, ends-IsTalk, phase-IsTalk,
}

module _ (notes : Codec RouteNote) (client : AsyncCore (message_type notes))
    (sends : WriterView client.write) (core : WriterCore) (view : WriterView core.write)
    (messages : List RouteNote) (c : client.State) (w : core.State) where
  -- The message of the next string that comes to the server.
  pub next_coming :
      (t : Talk notes client sends core view) (n : ℕ) (b : Bytes) (bs : List Bytes)
      → sends.written c ≡ []
      → (v : IsTalk notes client sends core view messages c w t n)
      → sends.written t.stream ≡ t.arrived ++ b ∷ bs
      → (m : RouteNote) × (rest : List RouteNote) × (v.coming ≡ m ∷ rest) × (b ≡ notes.serialize m)
  next_coming t n b bs fresh v e = next_of_map notes.serialize v.handled v.coming b bs (
      ap (map notes.serialize) (sym v.sent)
      ∙ ap (λ l. l ++ map notes.serialize v.sending.sent) (sym fresh)
      ∙ sym v.sending.wrote
      ∙ e
      ∙ ap (λ l. l ++ b ∷ bs) v.came)

  -- `OnMsgStr` of the string of a message whose text is UTF-8.
  pub on_msg_str-serialize :
      (m : RouteNote) (r : ChatReader notes core)
      → notes.is_text m ≡ true
      → on_msg_str
          (message_type notes)
          (λ msg r. r >>= on_msg notes core msg)
          (notes.serialize m)
          (some r)
        ≡ (status_ok, on_msg notes core m r)
  unfolding on_msg_str
  on_msg_str-serialize m r text = rw (notes.parse-serialize m text) refl

  -- A note that is handled has UTF-8 as its text; the reader refuses any other.
  accepted-text :
      (m : RouteNote) (b : Bytes) (before r : ChatReader notes core)
      → b ≡ notes.serialize m
      → on_msg_str (message_type notes) (λ msg r. r >>= on_msg notes core msg) b (some before)
        ≡ (status_ok, some r)
      → notes.is_text m ≡ true
  unfolding on_msg_str
  accepted-text m b before r same run = elim (Bool-cases (notes.is_text m)) [
    | inl text ↦ text
    | inr other ↦
        let refused : (message_error (message_type notes), some before) ≡ (status_ok, some r) =
          sym (rw (same, notes.parse-refused m other) refl) ∙ run in
        absurd (omega (arith, ap (λ p. p.0.code) refused))
  ]

  -- A note that is handled is the message that is next to come.
  on_msg-ran :
      (m : RouteNote) (b : Bytes) (before r : ChatReader notes core)
      → b ≡ notes.serialize m
      → notes.is_text m ≡ true
      → on_msg_str (message_type notes) (λ msg r. r >>= on_msg notes core msg) b (some before)
        ≡ (status_ok, some r)
      → on_msg notes core m before ≡ some r
  on_msg-ran m b before r same text run =
      ap (λ p. p.1)
        (sym (on_msg_str-serialize m before text)
          ∙ ap
              (λ b.
                on_msg_str (message_type notes) (λ msg r. r >>= on_msg notes core msg) b
                  (some before))
              (sym same)
          ∙ run)

  -- The answers to some notes and one more, with the board that the notes before it have filled.
  answers-one_more :
      (handled : List RouteNote) (m : RouteNote)
      → answers empty_board (handled ++ m ∷ [])
        ≡ answers empty_board handled ++ board_of empty_board handled m.location
  answers-one_more handled m =
      answers-append empty_board handled (m ∷ [])
      ∙ ap (λ l. answers empty_board handled ++ l)
          (append-nil (board_of empty_board handled m.location))

  arrives-IsTalk :
      (t : Talk notes client sends core view) (b : Bytes) (bs : List Bytes)
      (r : ChatReader notes core) (n : ℕ)
      → sends.written c ≡ []
      → sends.written t.stream ≡ t.arrived ++ b ∷ bs
      → on_msg_str (message_type notes) (λ msg r. r >>= on_msg notes core msg) b (some t.reader)
        ≡ (status_ok, some r)
      → IsTalk notes client sends core view messages c w t n
      → IsTalk notes client sends core view messages c w
          (record t { arrived = t.arrived ++ b ∷ []; reader = r })
          (suc n)
  arrives-IsTalk t b bs r n fresh e run v =
      let (m, rest, more, same) = next_coming t n b bs fresh v e in
      let text = accepted-text m b t.reader r same run in
      let ran = on_msg-ran m b t.reader r same text run in
      let handled = handle-Handles notes core view m (some r) v.chat ran in
      record {
        said = v.said;
        split = v.split;
        sending = v.sending;
        handled = v.handled ++ m ∷ [];
        plain = All-append (λ m. notes.is_text m ≡ true) v.handled (m ∷ []) v.plain (text, tt);
        coming = rest;
        sent = v.sent ∙ ap (λ l. v.handled ++ l) more ∙ sym (append_assoc v.handled (m ∷ []) rest);
        came =
            ap (λ l. l ++ b ∷ []) v.came
            ∙ ap (λ x. map notes.serialize v.handled ++ x ∷ []) same
            ∙ sym (map-append notes.serialize v.handled (m ∷ []));
        board = post v.board m;
        board_is =
            ap (λ board. post board m) v.board_is
            ∙ sym (board_of-append empty_board v.handled (m ∷ []));
        answer = v.answer ++ v.board m.location;
        answer_is =
            ap (λ l. l ++ v.board m.location) v.answer_is
            ∙ ap (λ board. answers empty_board v.handled ++ board m.location) v.board_is
            ∙ sym (answers-one_more v.handled m);
        chat = handled.shows;
        shown = v.shown;
        ahead = v.ahead ++ handled.more;
        told =
            handled.grown
            ∙ ap (λ l. l ++ handled.more) v.told
            ∙ append_assoc v.shown v.ahead handled.more;
        seen = v.seen;
        counted = omega (arith, v.counted, length-append v.handled (m ∷ []));
      }

  pub answered-writer :
      (t : Talk notes client sends core view) (n : ℕ)
      (v : IsTalk notes client sends core view messages c w t n)
      → view.written w ≡ []
      → answered notes client sends core view t.reader
        ≡ map notes.serialize v.shown ++ map notes.serialize v.ahead
  answered-writer t n v fresh =
      ap (answered notes client sends core view) (some_eq v.chat.runs)
      ∙ v.chat.wrote.wrote
      ∙ ap (λ l. l ++ map notes.serialize v.chat.wrote.sent) fresh
      ∙ ap (map notes.serialize) v.told
      ∙ map-append notes.serialize v.shown v.ahead

  reads-IsTalk :
      (t : Talk notes client sends core view) (b : Bytes) (bs : List Bytes) (n : ℕ)
      → view.written w ≡ []
      → answered notes client sends core view t.reader ≡ t.read ++ b ∷ bs
      → IsTalk notes client sends core view messages c w t n
      → IsTalk notes client sends core view messages c w
          (record t { read = t.read ++ b ∷ [] })
          (suc n)
  reads-IsTalk t b bs n fresh e v =
      let (m, rest, more, same) = next_of_map notes.serialize v.shown v.ahead b bs (
        map-append notes.serialize v.shown v.ahead
        ∙ sym (answered-writer t n v fresh)
        ∙ e
        ∙ ap (λ l. l ++ b ∷ bs) v.seen) in
      record {
        said = v.said;
        split = v.split;
        sending = v.sending;
        handled = v.handled;
        plain = v.plain;
        coming = v.coming;
        sent = v.sent;
        came = v.came;
        board = v.board;
        board_is = v.board_is;
        answer = v.answer;
        answer_is = v.answer_is;
        chat = v.chat;
        shown = v.shown ++ m ∷ [];
        ahead = rest;
        told = v.told ∙ ap (λ l. v.shown ++ l) more ∙ sym (append_assoc v.shown (m ∷ []) rest);
        seen =
            ap (λ l. l ++ b ∷ []) v.seen
            ∙ ap (λ x. map notes.serialize v.shown ++ x ∷ []) same
            ∙ sym (map-append notes.serialize v.shown (m ∷ []));
        counted = omega (arith, v.counted, length-append v.shown (m ∷ []));
      }

  past : {p q : Phase} → p ≡ q → phases_done q ≡ phases_done p
  past e = ap phases_done (sym e)

  -- Each step keeps the invariant, and adds one to the count.
  Step-IsTalk :
      {t u : Talk notes client sends core view} {n : ℕ}
      → ClosingView notes client sends
      → sends.written c ≡ []
      → view.written w ≡ []
      → Step notes client sends core view t u
      → IsTalk notes client sends core view messages c w t n
      → IsTalk notes client sends core view messages c w u (suc n)
  Step-IsTalk {n = n} closing fresh silent (writes t note rest e) v =
      writes-IsTalk notes client sends core view messages c w t note rest n e v
  Step-IsTalk {n = n} closing fresh silent (closes t e opened) v =
      closes-IsTalk notes client sends core view messages c w t n closing opened v
  Step-IsTalk {n = n} closing fresh silent (arrives t b bs r e run) v =
      arrives-IsTalk t b bs r n fresh e run v
  Step-IsTalk {n = n} closing fresh silent (reads t b bs on e read) v =
      reads-IsTalk t b bs n silent e v
  Step-IsTalk {n = n} closing fresh silent (ends t r shut came open_end ran) v =
      ends-IsTalk notes client sends core view messages c w t n open_end v
  Step-IsTalk {n = n} closing fresh silent (refuses t b bs on e other) v =
      phase-IsTalk notes client sends core view messages c w t joining n (ap suc (past on)) v
  Step-IsTalk {n = n} closing fresh silent (finishes t on told e) v =
      phase-IsTalk notes client sends core view messages c w t joining n (ap suc (past on)) v
  Step-IsTalk {n = n} closing fresh silent (joins t on sent shut) v =
      phase-IsTalk notes client sends core view messages c w t asking n (ap suc (past on)) v
  Step-IsTalk {n = n} closing fresh silent (asks t status on) v =
      phase-IsTalk notes client sends core view messages c w t (returned status) n
        (ap suc (past on)) v

  pub Reach-IsTalk :
      {t : Talk notes client sends core view}
      → ClosingView notes client sends
      → sends.written c ≡ []
      → view.written w ≡ []
      → (r : Reach notes client sends core view
          (start_talk notes client sends core view messages c w)
          t)
      → IsTalk notes client sends core view messages c w t (steps notes client sends core view r)
  Reach-IsTalk closing fresh silent here = start-IsTalk notes client sends core view messages c w
  Reach-IsTalk closing fresh silent (next r step) =
      Step-IsTalk closing fresh silent step (Reach-IsTalk closing fresh silent r)
