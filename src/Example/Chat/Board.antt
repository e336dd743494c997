-- ===== src/Example/Chat/Board.antt =====
-- What a chat of route_guide_cb_server.cc promises: a board of notes by their points.
use grpc_cb.Base.{
  ◌≡◌, refl, sym, ◌∙◌, inl, inr, Option, some, List, [], ◌∷◌, ◌++◌, append-nil, append_assoc, ap,
  true, All-append, Bool-cases, if◌then◌else◌,
}
use grpc_cb.Base.Filter.{filter, filter-append}
use grpc_cb.Server.{WriterCore, write, BidiStreaming}
use grpc_cb.Example.Points.{Point, RouteNote}
use grpc_cb.Example.Wire.{
  Codec, AllText, message_type, WriterView, HasWritten, none-HasWritten, one-HasWritten,
  append-HasWritten,
}
use grpc_cb.Example.Features.{same_location}
use grpc_cb.Example.Chat.{ChatReader, echo, on_msg, on_msgs, route_chat}

-- A chat is a board: the notes that have been left at each point, in the order in which they came.
abbrev pub Board : Type 0
Board = Point → List RouteNote

abbrev pub empty_board : Board
empty_board p = []

-- A note is left at its point.
abbrev pub post : Board → RouteNote → Board
post board note p =
    let here = board p in if same_location note.location p then here ++ note ∷ [] else here

-- Each note of a row is answered by what is left at its point so far.
abbrev pub answers : Board → List RouteNote → List RouteNote
answers board [] = []
answers board (note ∷ rest) = board note.location ++ answers (post board note) rest

abbrev pub board_of : Board → List RouteNote → Board
board_of board [] = board
board_of board (note ∷ rest) = board_of (post board note) rest

-- The list of received notes stands for a board.
abbrev pub Shows : List RouteNote → Board → Type 0
Shows received board = (p : Point) → filter (λ n. same_location n.location p) received ≡ board p

pub Shows-post :
    (received : List RouteNote) (board : Board) (note : RouteNote)
    → Shows received board
    → Shows (received ++ note ∷ []) (post board note)
Shows-post received board note h p =
    filter-append (λ n. same_location n.location p) received (note ∷ [])
    ∙ (elim (Bool-cases (same_location note.location p)) [
      | inl e ↦ rw (e, h p) refl
      | inr e ↦ rw (e, h p) (append-nil (board p))
    ])

-- Rows of notes behind one another.
pub board_of-append :
    (board : Board) (xs ys : List RouteNote)
    → board_of board (xs ++ ys) ≡ board_of (board_of board xs) ys
board_of-append board [] ys = refl
board_of-append board (x ∷ xs) ys = board_of-append (post board x) xs ys

pub answers-append :
    (board : Board) (xs ys : List RouteNote)
    → answers board (xs ++ ys) ≡ answers board xs ++ answers (board_of board xs) ys
answers-append board [] ys = refl
answers-append board (x ∷ xs) ys =
    ap (λ l. board x.location ++ l) (answers-append (post board x) xs ys)
    ∙ sym (
        append_assoc (board x.location) (answers (post board x) xs)
          (answers (board_of (post board x) xs) ys))

-- What is answered to notes with UTF-8 as their text is such notes.
post-AllText :
    (notes : Codec RouteNote) (board : Board) (note : RouteNote)
    → ((p : Point) → AllText notes (board p))
    → notes.is_text note ≡ true
    → (p : Point) → AllText notes (post board note p)
post-AllText notes board note h text p = elim (Bool-cases (same_location note.location p)) [
  | inl e ↦ rw e (All-append (λ m. notes.is_text m ≡ true) (board p) (note ∷ []) (h p) (text, tt))
  | inr e ↦ rw e (h p)
]

pub answers-AllText :
    (notes : Codec RouteNote) (board : Board) (messages : List RouteNote)
    → ((p : Point) → AllText notes (board p))
    → AllText notes messages
    → AllText notes (answers board messages)
answers-AllText notes board [] h texts = tt
answers-AllText notes board (m ∷ ms) h (text, texts) =
    All-append (λ m. notes.is_text m ≡ true) (board m.location) (answers (post board m) ms)
      (h m.location)
      (answers-AllText notes (post board m) ms (post-AllText notes board m h text) texts)

module _ (notes : Codec RouteNote) (core : WriterCore) (view : WriterView core.write) where
  abbrev pub with_writer : core.State → BidiStreaming (message_type notes) core
  with_writer s = record { writer_uptr = some s }

  pub echo-HasWritten :
      (msg : RouteNote) (received : List RouteNote) (s : core.State)
      → (s' : core.State) × (echo notes core msg received (with_writer s) ≡ some (with_writer s'))
        × HasWritten notes core.write view s s'
            (filter (λ n. same_location n.location msg.location) received)
  unfolding echo write
  echo-HasWritten msg [] s = (s, refl, none-HasWritten notes core.write view s)
  echo-HasWritten msg (n ∷ received) s = elim (Bool-cases (same_location n.location msg.location)) [
    | inl e ↦
        let (s', ran, wrote) =
          echo-HasWritten msg received (write (message_type notes) core n s).1 in
        (
          s',
          rw (echo, e) ran,
          rw e (
              append-HasWritten notes core.write view (one-HasWritten notes core.write view n s)
                wrote),
        )
    | inr e ↦
        let (s', ran, wrote) = echo-HasWritten msg received s in (s', rw (echo, e) ran, rw e wrote)
  ]

  -- The reader of a chat that shows a board, with its writer.
  pub record Simulates (run : Option (ChatReader notes core)) (s : core.State) (board : Board)
      (answered : List RouteNote) : Type 0 where
    pub writer : core.State
    pub received_notes : List RouteNote
    pub runs :
        run ≡ some (record { streaming = with_writer writer; received_notes = received_notes })
    pub shows : Shows received_notes board
    pub wrote : HasWritten notes core.write view s writer answered

  -- From a reader that shows a board, a row of notes runs without a failed assert, writes what the
  -- board answers to each, up to the first message that the writer does not accept, and comes to the
  -- board with these notes on it.
  on_msgs-Simulates :
      (msgs : List RouteNote) (received : List RouteNote) (board : Board) (s : core.State)
      → Shows received board
      → Simulates
          (on_msgs notes core msgs
            (record { streaming = with_writer s; received_notes = received }))
          s
          (board_of board msgs)
          (answers board msgs)
  unfolding on_msgs on_msg
  on_msgs-Simulates [] received board s h = record {
    writer = s;
    received_notes = received;
    runs = refl;
    shows = h;
    wrote = none-HasWritten notes core.write view s;
  }
  on_msgs-Simulates (msg ∷ msgs) received board s h =
      let (s', ran, wrote) = echo-HasWritten msg received s in
      let rest =
        on_msgs-Simulates msgs (received ++ msg ∷ []) (post board msg) s'
          (Shows-post received board msg h) in
      record {
        writer = rest.writer;
        received_notes = rest.received_notes;
        runs = rw ran (rest.runs);
        shows = rest.shows;
        wrote =
            append-HasWritten notes core.write view (rw (sym (h msg.location)) wrote) rest.wrote;
      }

  -- A chat refines the board: from its start on, whatever notes come, the reader fails no assert, its
  -- list stands for the board that holds these notes, and the client gets, in order, the notes that
  -- were left before at the point of each, up to the first that the writer does not accept.
  pub route_chat-Simulates :
      (msgs : List RouteNote) (s : core.State)
      → Simulates
          (on_msgs notes core msgs (route_chat notes core s))
          s
          (board_of empty_board msgs)
          (answers empty_board msgs)
  unfolding route_chat
  route_chat-Simulates msgs s = on_msgs-Simulates msgs [] empty_board s (λ p. refl)
