-- ===== src/Example/Visit/Talk/Heard.antt =====
-- What the client of a chat has read, in whichever order the threads go on.
use mathlib.Core.List.{map-append}
use mathlib.Core.Path.{subst}
use grpc_cb.Base.{
  some_unique, ℕ, ◌≡◌, refl, sym, ap, ◌∙◌, true, some, List, [], ◌∷◌, ◌++◌, append-nil,
  append_assoc, arith, length, length-append, All-append_left,
}
use grpc_cb.Client.{AsyncCore}
use grpc_cb.Client.Reading.{received, received-serialize, length-map}
use grpc_cb.Server.{WriterCore}
use grpc_cb.Example.Points.{RouteNote}
use grpc_cb.Example.Wire.{Codec, AllText, message_type, WriterView}
use grpc_cb.Example.Chat.Board.{empty_board, board_of, answers, answers-append, answers-AllText}
use grpc_cb.Example.Visit.Talk.{Talk, start_talk, answered, Reach, ClosingView}
use grpc_cb.Example.Visit.Talk.Handling.{some_eq}
use grpc_cb.Example.Visit.Talk.Invariant.{IsTalk}
use grpc_cb.Example.Visit.Talk.Reached.{Reach-IsTalk, answered-writer}

no_items {ℓ} : {A : Type ℓ} (xs ys : List A) → length xs ≡ length (xs ++ ys) → ys ≡ []
no_items xs [] e = refl
no_items xs (y ∷ ys) e = absurd (omega (arith, length-append xs (y ∷ ys)))

module _ (notes : Codec RouteNote) (client : AsyncCore (message_type notes))
    (sends : WriterView client.write) (core : WriterCore) (view : WriterView core.write)
    (messages : List RouteNote) (c : client.State) (w : core.State) where
  module _ (t : Talk notes client sends core view) {n : ℕ}
      (v : IsTalk notes client sends core view messages c w t n) where
    -- The notes that the server has not handled.
    abbrev pub waiting : List RouteNote
    waiting = v.coming ++ (v.sending.lost ++ t.unsent)

    pub messages-handled : messages ≡ v.handled ++ waiting
    messages-handled =
        v.split
        ∙ ap (λ l. l ++ t.unsent) (v.sending.parts ∙ ap (λ l. l ++ v.sending.lost) v.sent)
        ∙ append_assoc (v.handled ++ v.coming) v.sending.lost t.unsent
        ∙ append_assoc v.handled v.coming (v.sending.lost ++ t.unsent)

    pub answers-shown :
        answers empty_board messages
        ≡ v.shown
          ++ ((v.ahead ++ v.chat.wrote.lost) ++ answers (board_of empty_board v.handled) waiting)
    answers-shown =
        ap (answers empty_board) messages-handled
        ∙ answers-append empty_board v.handled waiting
        ∙ ap (λ l. l ++ answers (board_of empty_board v.handled) waiting)
            (sym v.answer_is
              ∙ v.chat.wrote.parts
              ∙ ap (λ l. l ++ v.chat.wrote.lost) v.told
              ∙ append_assoc v.shown v.ahead v.chat.wrote.lost)
        ∙ append_assoc v.shown (v.ahead ++ v.chat.wrote.lost)
            (answers (board_of empty_board v.handled) waiting)

    pub told-AllText : AllText notes (v.shown ++ (v.ahead ++ v.chat.wrote.lost))
    told-AllText =
        let all = answers-AllText notes empty_board v.handled (λ p. tt) v.plain in
        let same : answers empty_board v.handled ≡ v.shown ++ (v.ahead ++ v.chat.wrote.lost) =
          sym v.answer_is
          ∙ v.chat.wrote.parts
          ∙ ap (λ l. l ++ v.chat.wrote.lost) v.told
          ∙ append_assoc v.shown v.ahead v.chat.wrote.lost in
        subst (AllText notes) same all

    shown-AllText : AllText notes v.shown
    shown-AllText =
        All-append_left (λ m. notes.is_text m ≡ true) v.shown (v.ahead ++ v.chat.wrote.lost)
          told-AllText

    received-shown : received (message_type notes) t.read ≡ v.shown
    received-shown =
        ap (received (message_type notes)) v.seen
        ∙ received-serialize (message_type notes) v.shown shown-AllText

  -- In whichever order the two threads of the client and the server go on, on streams that were fresh:
  -- what the client has read so far is the beginning of the answers to its notes, which are for each
  -- note, in order, the notes that were left before at the same point.
  pub talk-heard :
      {t : Talk notes client sends core view}
      → ClosingView notes client sends
      → sends.written c ≡ []
      → view.written w ≡ []
      → Reach notes client sends core view (start_talk notes client sends core view messages c w) t
      → (later : List RouteNote) × (answers empty_board messages
          ≡ received (message_type notes) t.read ++ later)
  talk-heard {t} closing fresh silent r =
      let v = Reach-IsTalk notes client sends core view messages c w closing fresh silent r in
      (
        (v.ahead ++ v.chat.wrote.lost) ++ answers (board_of empty_board v.handled) (waiting t v),
        answers-shown t v
            ∙ ap
                (λ l.
                  l
                  ++ ((v.ahead ++ v.chat.wrote.lost)
                      ++ answers (board_of empty_board v.handled) (waiting t v)))
                (sym (received-shown t v)),
      )

  -- And once as many strings have come to the server as the client has notes, all that the server has
  -- written has been read, and its writer still accepts messages, the client has read the answers to
  -- all its notes.
  pub talk-answers :
      {t : Talk notes client sends core view} (last : core.State)
      → ClosingView notes client sends
      → sends.written c ≡ []
      → view.written w ≡ []
      → Reach notes client sends core view (start_talk notes client sends core view messages c w) t
      → length t.arrived ≡ length messages
      → answered notes client sends core view t.reader ≡ t.read
      → t.reader.streaming.writer_uptr ≡ some last
      → view.accepts last ≡ true
      → received (message_type notes) t.read ≡ answers empty_board messages
  talk-answers {t} last closing fresh silent r all read held open_end =
      let v = Reach-IsTalk notes client sends core view messages c w closing fresh silent r in
      let long : length v.handled ≡ length (v.handled ++ waiting t v) =
        sym (length-map notes.serialize v.handled)
        ∙ ap length (sym v.came)
        ∙ all
        ∙ ap length (messages-handled t v) in
      let none_waiting : waiting t v ≡ [] = no_items v.handled (waiting t v) long in
      let none_ahead : v.ahead ≡ [] = no_items v.shown v.ahead (
        sym (length-map notes.serialize v.shown)
        ∙ ap length (
            sym v.seen
            ∙ sym read
            ∙ answered-writer notes client sends core view messages c w t _ v silent
            ∙ sym (map-append notes.serialize v.shown v.ahead))
        ∙ length-map notes.serialize (v.shown ++ v.ahead)) in
      let same : last ≡ v.chat.writer =
        some_unique t.reader.streaming.writer_uptr last v.chat.writer held
          (ap (λ r. r.streaming.writer_uptr) (some_eq v.chat.runs)) in
      let none_lost : v.chat.wrote.lost ≡ [] =
        v.chat.wrote.complete (ap view.accepts (sym same) ∙ open_end) in
      received-shown t v
      ∙ sym (answers-shown t v ∙ rw (none_waiting, none_ahead, none_lost) (append-nil v.shown))
