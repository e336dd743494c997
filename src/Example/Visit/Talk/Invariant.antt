-- ===== src/Example/Visit/Talk/Invariant.antt =====
-- What holds of a chat in whichever order its threads go on.
use grpc_cb.Base.{
  ℕ, suc, ◌+◌, ◌≡◌, refl, sym, ap, ◌∙◌, inl, inr, true, false, some, List, [], ◌∷◌, ◌++◌, map,
  append-nil, append_assoc, arith, Bool-cases, length, length-append, if◌then◌else◌,
}
use grpc_cb.Client.{AsyncCore, async_write, close_writing}
use grpc_cb.Server.{WriterCore}
use grpc_cb.Example.Points.{RouteNote}
use grpc_cb.Example.Wire.{
  Codec, AllText, message_type, WriterView, HasWritten, one-HasWritten, grow-HasWritten, two_values,
}
use grpc_cb.Example.Chat.Board.{Board, empty_board, board_of, answers, Simulates}
use grpc_cb.Example.Visit.Talk.{Talk, start_talk, ClosingView, Phase, phases_done}

module _ (notes : Codec RouteNote) (client : AsyncCore (message_type notes))
    (sends : WriterView client.write) (core : WriterCore) (view : WriterView core.write)
    (messages : List RouteNote) (c : client.State) (w : core.State) where
  -- Of the notes, the first have been written, of those the first have come to the server, and of its
  -- answers to these the first have been read.
  pub record IsTalk (t : Talk notes client sends core view) (count : ℕ) : Type 0 where
    pub said : List RouteNote
    pub split : messages ≡ said ++ t.unsent
    pub sending : HasWritten notes client.write sends c t.stream said
    pub handled : List RouteNote
    pub coming : List RouteNote
    pub plain : AllText notes handled
    pub sent : sending.sent ≡ handled ++ coming
    pub came : t.arrived ≡ map notes.serialize handled
    pub board : Board
    pub board_is : board ≡ board_of empty_board handled
    pub answer : List RouteNote
    pub answer_is : answer ≡ answers empty_board handled
    pub chat : Simulates notes core view (some t.reader) w board answer
    pub shown : List RouteNote
    pub ahead : List RouteNote
    pub told : chat.wrote.sent ≡ shown ++ ahead
    pub seen : t.read ≡ map notes.serialize shown
    pub counted :
        count
        ≡ length said
          + (if t.closed then 1 else 0)
          + length handled
          + length shown
          + (if t.ended then 1 else 0)
          + phases_done t.phase

  pub start-IsTalk : IsTalk (start_talk notes client sends core view messages c w) 0
  unfolding start_talk
  start-IsTalk = record {
    said = [];
    split = refl;
    sending = record {
      sent = [];
      lost = [];
      parts = refl;
      wrote = sym (append-nil (sends.written c));
      complete = λ _. refl;
      shut = λ e. (refl, e);
    };
    handled = [];
    plain = tt;
    coming = [];
    sent = refl;
    came = refl;
    board = empty_board;
    board_is = refl;
    answer = [];
    answer_is = refl;
    chat = record {
      writer = w;
      received_notes = [];
      runs = refl;
      shows = λ p. refl;
      wrote = record {
        sent = [];
        lost = [];
        parts = refl;
        wrote = sym (append-nil (view.written w));
        complete = λ _. refl;
        shut = λ e. (refl, e);
      };
    };
    shown = [];
    ahead = [];
    told = refl;
    seen = refl;
    counted = omega arith;
  }

  close-HasWritten :
      (s : client.State) (said : List RouteNote)
      → ClosingView notes client sends
      → (h : HasWritten notes client.write sends c s said)
      → (k : HasWritten notes client.write sends c (client.close_writing s) said) × (k.sent
          ≡ h.sent)
  close-HasWritten s said closing h = (
    record {
      sent = h.sent;
      lost = h.lost;
      parts = h.parts;
      wrote = closing.written-close s ∙ h.wrote;
      complete = λ e. elim (Bool-cases (sends.accepts s)) [
        | inl k ↦ h.complete k
        | inr k ↦
            absurd
              (two_values (sends.accepts (client.close_writing s)) e (closing.accepts-close s k))
      ];
      shut = λ e. ((h.shut e).0, closing.accepts-close s (h.shut e).1);
    },
    refl,
  )

  pub writes-IsTalk :
      (t : Talk notes client sends core view) (note : RouteNote) (rest : List RouteNote) (n : ℕ)
      → t.unsent ≡ note ∷ rest
      → IsTalk t n
      → IsTalk
          (record t {
            unsent = rest;
            stream = (async_write (message_type notes) (message_type notes) client note t.stream).1;
          })
          (suc n)
  unfolding async_write
  writes-IsTalk t note rest n e v =
      let both =
        grow-HasWritten notes client.write sends v.sending
          (one-HasWritten notes client.write sends note t.stream) in
      record {
        said = v.said ++ note ∷ [];
        split = v.split ∙ ap (λ l. v.said ++ l) e ∙ sym (append_assoc v.said (note ∷ []) rest);
        sending = both.both;
        handled = v.handled;
        plain = v.plain;
        coming = v.coming ++ both.more;
        sent =
            both.grown
            ∙ ap (λ l. l ++ both.more) v.sent
            ∙ append_assoc v.handled v.coming both.more;
        came = v.came;
        board = v.board;
        board_is = v.board_is;
        answer = v.answer;
        answer_is = v.answer_is;
        chat = v.chat;
        shown = v.shown;
        ahead = v.ahead;
        told = v.told;
        seen = v.seen;
        counted = omega (arith, v.counted, length-append v.said (note ∷ []));
      }

  pub closes-IsTalk :
      (t : Talk notes client sends core view) (n : ℕ)
      → ClosingView notes client sends
      → t.closed ≡ false
      → IsTalk t n
      → IsTalk
          (record t {
            closed = true;
            stream = close_writing (message_type notes) (message_type notes) client t.stream;
          })
          (suc n)
  unfolding close_writing
  closes-IsTalk t n closing opened v =
      let (sending, same) = close-HasWritten t.stream v.said closing v.sending in
      record {
        said = v.said;
        split = v.split;
        sending = sending;
        handled = v.handled;
        plain = v.plain;
        coming = v.coming;
        sent = same ∙ v.sent;
        came = v.came;
        board = v.board;
        board_is = v.board_is;
        answer = v.answer;
        answer_is = v.answer_is;
        chat = v.chat;
        shown = v.shown;
        ahead = v.ahead;
        told = v.told;
        seen = v.seen;
        counted = ground (arith, v.counted);
      }

  -- The server is told of the end, or the reading thread goes on past its loop.
  pub ends-IsTalk :
      (t : Talk notes client sends core view) (n : ℕ)
      → t.ended ≡ false
      → IsTalk t n
      → IsTalk (record t { ended = true }) (suc n)
  ends-IsTalk t n open_end v = record {
    said = v.said;
    split = v.split;
    sending = v.sending;
    handled = v.handled;
    plain = v.plain;
    coming = v.coming;
    sent = v.sent;
    came = v.came;
    board = v.board;
    board_is = v.board_is;
    answer = v.answer;
    answer_is = v.answer_is;
    chat = v.chat;
    shown = v.shown;
    ahead = v.ahead;
    told = v.told;
    seen = v.seen;
    counted = ground (arith, v.counted);
  }

  pub phase-IsTalk :
      (t : Talk notes client sends core view) (phase : Phase) (n : ℕ)
      → phases_done phase ≡ suc (phases_done t.phase)
      → IsTalk t n
      → IsTalk (record t { phase = phase }) (suc n)
  phase-IsTalk t phase n one v = record {
    said = v.said;
    split = v.split;
    sending = v.sending;
    handled = v.handled;
    plain = v.plain;
    coming = v.coming;
    sent = v.sent;
    came = v.came;
    board = v.board;
    board_is = v.board_is;
    answer = v.answer;
    answer_is = v.answer_is;
    chat = v.chat;
    shown = v.shown;
    ahead = v.ahead;
    told = v.told;
    seen = v.seen;
    counted = omega (arith, v.counted, one);
  }
