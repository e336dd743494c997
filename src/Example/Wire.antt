-- ===== src/Example/Wire.antt =====
-- The messages of the example programs on the wire: what protobuf generates for them, and what comes
-- of a writer.
use grpc_cb.Base.{
  ◌≡◌, refl, sym, ◌∙◌, inl, inr, Bool, true, false, List, [], ◌∷◌, ◌++◌, map, append_assoc,
  append-nil, Bytes, Bool-cases, All,
}
use mathlib.Core.List.{map-append}
use grpc_cb.Messages.{MessageType}

-- What protobuf generates for the messages of one type; `is_text` says whether the strings in a
-- message are UTF-8, without which it is not read back.
pub record Codec (A : Type 0) : Type 0 where
  pub type_name : Bytes
  pub initial : A
  pub serialize : A → Bytes
  pub parse : Bytes → Bool × A
  pub is_text : A → Bool
  pub parse-serialize : (m : A) → is_text m ≡ true → parse (serialize m) ≡ (true, m)
  pub parse-refused : (m : A) → is_text m ≡ false → (parse (serialize m)).0 ≡ false

abbrev pub message_type : {A : Type 0} → Codec A → MessageType
message_type {A} codec = record {
  Msg = A;
  type_name = codec.type_name;
  initial = codec.initial;
  serialize = codec.serialize;
  parse = codec.parse;
  is_text = codec.is_text;
  parse-serialize = codec.parse-serialize;
  parse-refused = codec.parse-refused;
}

-- The messages of a type that has no strings are all read back.
abbrev pub NoStrings : {A : Type 0} → Codec A → Type 0
NoStrings {A} codec = (m : A) → codec.is_text m ≡ true

abbrev pub AllText : {A : Type 0} → Codec A → List A → Type 0
AllText codec messages = All (λ m. codec.is_text m ≡ true) messages

pub NoStrings-AllText :
    {A : Type 0} (codec : Codec A) → NoStrings codec → (messages : List A) → AllText codec messages
NoStrings-AllText codec h [] = tt
NoStrings-AllText codec h (m ∷ ms) = (h m, NoStrings-AllText codec h ms)

-- What the other side gets from the `Write` of an object of grpc_cb_core: a write that is accepted
-- adds a message string, and says so; once a write has been refused, all are.
pub record WriterView {State : Type 0} (write : Bytes → State → Bool × State) : Type 0 where
  pub written : State → List Bytes
  pub accepts : State → Bool
  pub write-accepted :
      (b : Bytes) (s : State)
      → accepts s ≡ true
      → ((write b s).0 ≡ true) × (written (write b s).1 ≡ written s ++ b ∷ [])
  pub write-refused :
      (b : Bytes) (s : State)
      → accepts s ≡ false
      → ((write b s).0 ≡ false)
        × (written (write b s).1 ≡ written s)
        × (accepts (write b s).1 ≡ false)

pub two_values : (b : Bool) → b ≡ true → b ≡ false → ⊥
two_values b t f = cc

module _ {A : Type 0} (codec : Codec A) {State : Type 0} (write : Bytes → State → Bool × State)
    (view : WriterView write) where
  -- From one state to another, the messages have been written, in order, up to the first that the
  -- writer did not accept, and none behind that.
  pub record HasWritten (s s' : State) (messages : List A) : Type 0 where
    pub sent : List A
    pub lost : List A
    pub parts : messages ≡ sent ++ lost
    pub wrote : view.written s' ≡ view.written s ++ map codec.serialize sent
    pub complete : view.accepts s' ≡ true → lost ≡ []
    pub shut : view.accepts s ≡ false → (sent ≡ []) × (view.accepts s' ≡ false)

  pub none-HasWritten : (s : State) → HasWritten s s []
  none-HasWritten s = record {
    sent = [];
    lost = [];
    parts = refl;
    wrote = sym (append-nil (view.written s));
    complete = λ _. refl;
    shut = λ e. (refl, e);
  }

  pub one-HasWritten : (m : A) (s : State) → HasWritten s (write (codec.serialize m) s).1 (m ∷ [])
  one-HasWritten m s = elim (Bool-cases (view.accepts s)) [
    | inl e ↦ record {
      sent = m ∷ [];
      lost = [];
      parts = refl;
      wrote = (view.write-accepted (codec.serialize m) s e).1;
      complete = λ _. refl;
      shut = λ k. absurd (cc);
    }
    | inr e ↦
        let (_, same, shut) = view.write-refused (codec.serialize m) s e in
        record {
          sent = [];
          lost = m ∷ [];
          parts = refl;
          wrote = same ∙ sym (append-nil (view.written s));
          complete = λ k. absurd (cc);
          shut = λ _. (refl, shut);
        }
  ]

  -- One row of writes behind another: what has been sent before stands in front.
  pub record Longer {s s' : State} {xs : List A} (s'' : State) (ys : List A)
      (h : HasWritten s s' xs) : Type 0 where
    pub both : HasWritten s s'' (xs ++ ys)
    pub more : List A
    pub grown : both.sent ≡ h.sent ++ more

  pub grow-HasWritten :
      {s s' s'' : State} {xs ys : List A} (h : HasWritten s s' xs)
      → HasWritten s' s'' ys
      → Longer s'' ys h
  grow-HasWritten {s} {s'} {s''} {xs} {ys} h k = elim (Bool-cases (view.accepts s')) [
    | inl e ↦ record {
      both = record {
        sent = h.sent ++ k.sent;
        lost = k.lost;
        parts =
            rw (h.parts, k.parts, h.complete e)
              (append_assoc h.sent [] (k.sent ++ k.lost) ∙ sym (append_assoc h.sent k.sent k.lost));
        wrote =
            rw (k.wrote, h.wrote, map-append codec.serialize h.sent k.sent)
              (append_assoc (view.written s) (map codec.serialize h.sent)
                (map codec.serialize k.sent));
        complete = k.complete;
        shut = λ c. absurd (two_values (view.accepts s') e (h.shut c).1);
      };
      more = k.sent;
      grown = refl;
    }
    | inr e ↦ record {
      both = record {
        sent = h.sent;
        lost = h.lost ++ ys;
        parts = rw h.parts (append_assoc h.sent h.lost ys);
        wrote =
            rw (k.wrote, (k.shut e).0, h.wrote)
              (append-nil (view.written s ++ map codec.serialize h.sent));
        complete = λ c. absurd (two_values (view.accepts s'') c (k.shut e).1);
        shut = λ c. ((h.shut c).0, (k.shut e).1);
      };
      more = [];
      grown = sym (append-nil h.sent);
    }
  ]

  pub append-HasWritten :
      {s s' s'' : State} {xs ys : List A}
      → HasWritten s s' xs
      → HasWritten s' s'' ys
      → HasWritten s s'' (xs ++ ys)
  append-HasWritten h k = (grow-HasWritten h k).both

  -- Nothing is written behind a write that was not accepted.
  pub stopped-HasWritten :
      (m : A) (rest : List A) (s : State)
      → (write (codec.serialize m) s).0 ≡ false
      → HasWritten s (write (codec.serialize m) s).1 (m ∷ rest)
  stopped-HasWritten m rest s f = elim (Bool-cases (view.accepts s)) [
    | inl e ↦ absurd (two_values _ (view.write-accepted (codec.serialize m) s e).0 f)
    | inr e ↦
        let (_, same, shut) = view.write-refused (codec.serialize m) s e in
        record {
          sent = [];
          lost = m ∷ rest;
          parts = refl;
          wrote = same ∙ sym (append-nil (view.written s));
          complete = λ k. absurd (two_values _ k shut);
          shut = λ _. (refl, shut);
        }
  ]
