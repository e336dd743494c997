-- ===== src/Example/Visit/Talk/Handling.antt =====
-- A chat that shows a board handles one note more.
use mathlib.Core.List.{append_cancel_left, map-append}
use grpc_cb.Base.{◌≡◌, refl, sym, ap, ◌∙◌, Option, some, List, [], ◌∷◌, ◌++◌, map, Bytes}
use grpc_cb.Server.{WriterCore}
use grpc_cb.Example.Points.{RouteNote}
use grpc_cb.Example.Wire.{Codec, WriterView, HasWritten, grow-HasWritten}
use grpc_cb.Example.Chat.{ChatReader, echo, on_msg}
use grpc_cb.Example.Chat.Board.{Board, post, Shows-post, with_writer, echo-HasWritten, Simulates}

pub some_eq {ℓ} : {A : Type ℓ} {a b : A} → some a ≡ some b → a ≡ b
some_eq e = cc

-- The strings of some messages that begin with a string.
map-cons {ℓ} :
    {A : Type ℓ} (f : A → Bytes) (xs : List A) (b : Bytes) (bs : List Bytes)
    → map f xs ≡ b ∷ bs
    → (x : A) × (rest : List A) × (xs ≡ x ∷ rest) × (b ≡ f x)
map-cons f [] b bs e = cc
map-cons f (x ∷ xs) b bs e = (x, xs, refl, cc)

-- The next string behind those of the first messages is that of the next message.
pub next_of_map {ℓ} :
    {A : Type ℓ} (f : A → Bytes) (done left : List A) (b : Bytes) (bs : List Bytes)
    → map f (done ++ left) ≡ map f done ++ b ∷ bs
    → (x : A) × (rest : List A) × (left ≡ x ∷ rest) × (b ≡ f x)
next_of_map f done left b bs e =
    map-cons f left b bs
      (append_cancel_left (map f done) (map f left) (b ∷ bs) (sym (map-append f done left) ∙ e))

module _ (notes : Codec RouteNote) (core : WriterCore) (view : WriterView core.write) where
  -- A reader that shows a board handles one more note: it goes on without a failed assert, and what
  -- it has written before stands in front.
  pub record Handles {r : ChatReader notes core} {s : core.State} {board : Board}
      {told : List RouteNote} (msg : RouteNote) (run : Option (ChatReader notes core))
      (before : Simulates notes core view (some r) s board told) : Type 0 where
    pub shows : Simulates notes core view run s (post board msg) (told ++ board msg.location)
    pub more : List RouteNote
    pub grown : shows.wrote.sent ≡ before.wrote.sent ++ more

  on_msg-echo :
      (msg : RouteNote) (received : List RouteNote) (w w' : core.State)
      → echo notes core msg received (with_writer notes core view w)
        ≡ some (with_writer notes core view w')
      → on_msg notes core msg
          (record { streaming = with_writer notes core view w; received_notes = received })
        ≡ some (record {
          streaming = with_writer notes core view w';
          received_notes = received ++ msg ∷ [];
        })
  unfolding on_msg
  on_msg-echo msg received w w' e = rw e refl

  pub handle-Handles :
      {r : ChatReader notes core} {s : core.State} {board : Board} {told : List RouteNote}
      (msg : RouteNote) (run : Option (ChatReader notes core))
      (before : Simulates notes core view (some r) s board told)
      → on_msg notes core msg r ≡ run
      → Handles msg run before
  handle-Handles {r} {s} {board} {told} msg run before e =
      let received = before.received_notes in
      let (s', ran, wrote) = echo-HasWritten notes core view msg received before.writer in
      let answer : HasWritten notes core.write view before.writer s' (board msg.location) =
        rw (sym (before.shows msg.location)) wrote in
      let both = grow-HasWritten notes core.write view before.wrote answer in
      record {
        shows = record {
          writer = s';
          received_notes = received ++ msg ∷ [];
          runs =
              sym e
              ∙ ap (on_msg notes core msg) (some_eq before.runs)
              ∙ on_msg-echo msg received before.writer s' ran;
          shows = Shows-post received board msg before.shows;
          wrote = both.both;
        };
        more = both.more;
        grown = both.grown;
      }
