-- ===== src/Tests/Talks.antt =====
-- A chat of the client with the server, step by step, and the theorems on such chats applied to it.
use grpc_cb.Base.{
  ℕ, ◌+◌, ◌*◌, ◌≤◌, ◌≡◌, refl, ◌⊎◌, true, some, List, [], ◌∷◌, ◌++◌, Bytes, codes, length,
}
use grpc_cb.ProtoUtils.Status.{status_ok}
use grpc_cb.Client.{AsyncCore, async_write, close_writing}
use grpc_cb.Client.Reading.{received}
use grpc_cb.Server.{on_msg_str}
use grpc_cb.Example.Points.{RouteNote, origin}
use grpc_cb.Example.Wire.{message_type}
use grpc_cb.Example.Chat.{on_msg, on_end, route_chat}
use grpc_cb.Example.Chat.Board.{empty_board, answers}
use grpc_cb.Example.Visit.Talk.{
  Talk, start_talk, Step, writes, closes, arrives, reads, ends, finishes, joins, asks, returned,
  Reach, here, next, steps, IsOver, ClosingView,
}
use grpc_cb.Example.Visit.Talk.Heard.{talk-heard, talk-answers}
use grpc_cb.Example.Visit.Talk.Ending.{talk-ends}
use grpc_cb.Tests.Wires.{notes}
use grpc_cb.Tests.Connections.{push, push_view, server_writer}

-- A stream that accepts no more once it is closed.
abbrev note_stream : AsyncCore (message_type notes)
note_stream = record {
  State = List Bytes × ℕ;
  write = push;
  close_writing = λ s. (s.0, 0);
  read_each = λ cb s. s;
  close = λ cb s. s;
}

note_stream-ClosingView : ClosingView notes note_stream push_view
note_stream-ClosingView = record { written-close = λ s. refl; accepts-close = λ s e. refl }

abbrev first_note : RouteNote
first_note = record { location = origin; message = codes "Hi" }

abbrev second_note : RouteNote
second_note = record { location = origin; message = codes "Ho" }

abbrev two_notes : List RouteNote
two_notes = first_note ∷ second_note ∷ []

abbrev begun : Talk notes note_stream push_view server_writer push_view
begun = start_talk notes note_stream push_view server_writer push_view two_notes ([], 2) ([], 5)

abbrev both_strings : List Bytes
both_strings = notes.serialize first_note ∷ notes.serialize second_note ∷ []

-- The first note comes to the server before the second is written.
abbrev finished : Talk notes note_stream push_view server_writer push_view
finished = record {
  unsent = [];
  stream = (both_strings, 0);
  closed = true;
  arrived = both_strings;
  reader = record {
    streaming = record { writer_uptr = some (notes.serialize first_note ∷ [], 4) };
    received_notes = two_notes;
  };
  ended = true;
  read = notes.serialize first_note ∷ [];
  phase = returned status_ok;
}

finished-Reach : Reach notes note_stream push_view server_writer push_view begun finished
unfolding start_talk route_chat async_write close_writing on_msg_str on_msg on_end
finished-Reach =
    next
      (next
        (next
          (next
            (next
              (next
                (next
                  (next (next (next here (writes _ first_note _ refl)) (arrives _ _ _ _ refl refl))
                    (writes _ second_note _ refl))
                  (closes _ refl refl))
                (arrives _ _ _ _ refl refl))
              (reads _ _ _ refl refl refl))
            (ends _ _ refl refl refl refl))
          (finishes _ refl refl refl))
        (joins _ refl refl refl))
      (asks _ status_ok refl)

talk-heard_example :
    (later : List RouteNote) × (answers empty_board two_notes
      ≡ received (message_type notes) (notes.serialize first_note ∷ []) ++ later)
talk-heard_example =
    talk-heard notes note_stream push_view server_writer push_view two_notes ([], 2) ([], 5)
      note_stream-ClosingView refl refl finished-Reach

talk-answers_example :
    received (message_type notes) (notes.serialize first_note ∷ []) ≡ answers empty_board two_notes
talk-answers_example =
    talk-answers notes note_stream push_view server_writer push_view two_notes ([], 2) ([], 5)
      (notes.serialize first_note ∷ [], 4) note_stream-ClosingView refl refl finished-Reach refl
      refl refl refl

talk-ends_example :
    (IsOver notes note_stream push_view server_writer push_view finished
      ⊎ ((u : Talk notes note_stream push_view server_writer push_view) × Step notes note_stream
            push_view server_writer push_view finished u))
    × (steps notes note_stream push_view server_writer push_view finished-Reach
        ≤ 2 * length two_notes + 5 + length (answers empty_board two_notes))
talk-ends_example =
    talk-ends notes note_stream push_view server_writer push_view two_notes ([], 2) ([], 5)
      note_stream-ClosingView (refl, (refl, tt)) refl refl finished-Reach
