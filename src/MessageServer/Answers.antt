-- ===== src/MessageServer/Answers.antt =====
-- The requests of the clients and the answers to them.
pub mod Kept
use sysopy_all.Base.{
  ℕ, ◌≡◌, refl, sym, ap, ◌∙◌, ◌⊎◌, inl, inr, Ensures, Ensures-bind, subst, List, [], ◌∷◌, ◌++◌,
  Text, arith, Bool-cases, ltb,
}
use sysopy_all.MessageServer.{
  Message, Request, echo, uppercase, get_time, terminate, new_client, wrong, request_of,
  ServerState, ServerTurn, waits, exits, overruns, ends, goes, toupper, upper, handle, receive,
  server_turn, Event, send, take_first, turn, Net, after_turn, take_message, happen, happen_all,
  opened_net,
}

toupper-toupper : (c : ℕ) → toupper (toupper c) ≡ toupper c
toupper-toupper c = ground arith

upper-upper : (t : Text) → upper (upper t) ≡ upper t
upper-upper [] = refl
upper-upper (c ∷ cs) = rw (toupper-toupper c, upper-upper cs) refl

abbrev pub OneOf : Text → List Text → Type 0
OneOf t [] = ⊥
OneOf t (x ∷ xs) = (t ≡ x) ⊎ OneOf t xs

-- The text of the answer to a request of that type, where a time is one of those given.
abbrev pub TextFor : List Text → Request → Text → Text → Type 0
TextFor times uppercase asked got = got ≡ upper asked
TextFor times get_time asked got = OneOf got times
TextFor times _ asked got = got ≡ asked

-- `m` is the answer to the request `r`.
abbrev pub IsAnswer : List Text → Message → Message → Type 0
IsAnswer times r m =
    (m.mtype ≡ r.mtype) × (m.id ≡ r.id) × TextFor times (request_of r.mtype) r.message m.message

-- `m` is the request `r`, or the answer to it.
abbrev pub Answering : List Text → Message → Message → Type 0
Answering times r m = (m ≡ r) ⊎ IsAnswer times r m

-- `m` is the answer to one of the requests.
abbrev pub AnswersOne : List Text → List Message → Message → Type 0
AnswersOne times [] m = ⊥
AnswersOne times (r ∷ rs) m = IsAnswer times r m ⊎ AnswersOne times rs m

abbrev pub Asked : List Text → List Message → Message → Type 0
Asked times [] m = ⊥
Asked times (r ∷ rs) m = Answering times r m ⊎ Asked times rs m

abbrev pub AllAsked : List Text → List Message → List Message → Type 0
AllAsked times rs [] = Unit
AllAsked times rs (m ∷ ms) = Asked times rs m × AllAsked times rs ms

Asked-more :
    (times : List Text) (rs : List Message) (r m : Message)
    → Asked times rs m
    → Asked times (rs ++ (r ∷ [])) m
Asked-more times [] r m a = absurd a
Asked-more times (q ∷ rs) r m (inl a) = inl a
Asked-more times (q ∷ rs) r m (inr a) = inr (Asked-more times rs r m a)

pub Asked-last :
    (times : List Text) (rs : List Message) (m : Message) → Asked times (rs ++ (m ∷ [])) m
Asked-last times [] m = inl (inl refl)
Asked-last times (q ∷ rs) m = inr (Asked-last times rs m)

-- A turn at one more time.
TextFor-later :
    (time : Text) (times : List Text) (k : Request) (asked got : Text)
    → TextFor times k asked got
    → TextFor (time ∷ times) k asked got
TextFor-later time times echo asked got h = h
TextFor-later time times uppercase asked got h = h
TextFor-later time times get_time asked got h = inr h
TextFor-later time times terminate asked got h = h
TextFor-later time times new_client asked got h = h
TextFor-later time times wrong asked got h = h

Asked-later :
    (time : Text) (times : List Text) (rs : List Message) (m : Message)
    → Asked times rs m
    → Asked (time ∷ times) rs m
Asked-later time times [] m a = a
Asked-later time times (r ∷ rs) m (inl (inl e)) = inl (inl e)
Asked-later time times (r ∷ rs) m (inl (inr (t, i, x))) =
    inl (inr (t, i, TextFor-later time times (request_of r.mtype) r.message m.message x))
Asked-later time times (r ∷ rs) m (inr a) = inr (Asked-later time times rs m a)

pub AllAsked-later :
    (time : Text) (times : List Text) (rs ms : List Message)
    → AllAsked times rs ms
    → AllAsked (time ∷ times) rs ms
AllAsked-later time times rs [] a = tt
AllAsked-later time times rs (m ∷ ms) (a, as') =
    (Asked-later time times rs m a, AllAsked-later time times rs ms as')

pub AllAsked-more :
    (times : List Text) (rs : List Message) (r : Message) (ms : List Message)
    → AllAsked times rs ms
    → AllAsked times (rs ++ (r ∷ [])) ms
AllAsked-more times rs r [] a = tt
AllAsked-more times rs r (m ∷ ms) (a, as') =
    (Asked-more times rs r m a, AllAsked-more times rs r ms as')

pub AllAsked-last :
    (times : List Text) (rs : List Message) (ms : List Message) (m : Message)
    → AllAsked times rs ms
    → Asked times rs m
    → AllAsked times rs (ms ++ (m ∷ []))
AllAsked-last times rs [] m a h = (h, tt)
AllAsked-last times rs (q ∷ ms) m (a, as') h = (a, AllAsked-last times rs ms m as' h)

pub AnswersOne-Asked :
    (time : Text) (times : List Text) (rs : List Message) (m : Message)
    → AnswersOne (time ∷ []) rs m
    → Asked (time ∷ times) rs m
AnswersOne-Asked time times [] m a = a
AnswersOne-Asked time times (r ∷ rs) m (inl (t, i, x)) =
    inl (inr (t, i, widen (request_of r.mtype) r.message m.message x))
  where
    widen :
        (k : Request) (asked got : Text)
        → TextFor (time ∷ []) k asked got
        → TextFor (time ∷ times) k asked got
    widen echo asked got h = h
    widen uppercase asked got h = h
    widen get_time asked got (inl h) = inl h
    widen get_time asked got (inr h) = absurd h
    widen terminate asked got h = h
    widen new_client asked got h = h
    widen wrong asked got h = h
AnswersOne-Asked time times (r ∷ rs) m (inr a) = inr (AnswersOne-Asked time times rs m a)

-- What the server makes of the text of a message.
abbrev reply_text : Text → Request → Text → Text
reply_text time uppercase got = upper got
reply_text time get_time got = time
reply_text time _ got = got

reply_text-TextFor :
    (time : Text) (times : List Text) (k : Request) (asked got : Text)
    → (got ≡ asked) ⊎ TextFor times k asked got
    → TextFor (time ∷ []) k asked (reply_text time k got)
reply_text-TextFor time times uppercase asked got (inl h) = ap upper h
reply_text-TextFor time times uppercase asked got (inr h) = ap upper h ∙ upper-upper asked
reply_text-TextFor time times get_time asked got h = inl refl
reply_text-TextFor time times echo asked got (inl h) = h
reply_text-TextFor time times echo asked got (inr h) = h
reply_text-TextFor time times terminate asked got (inl h) = h
reply_text-TextFor time times terminate asked got (inr h) = h
reply_text-TextFor time times new_client asked got (inl h) = h
reply_text-TextFor time times new_client asked got (inr h) = h
reply_text-TextFor time times wrong asked got (inl h) = h
reply_text-TextFor time times wrong asked got (inr h) = h

abbrev pub reply : Text → Request → Message → Message
reply time k m = record m { message = reply_text time k m.message }

reply-IsAnswer :
    (time : Text) (times : List Text) (k : Request) (r m : Message)
    → request_of m.mtype ≡ k
    → Answering times r m
    → IsAnswer (time ∷ []) r (reply time k m)
reply-IsAnswer time times k r m e a = go a
  where
    text :
        (t : m.mtype ≡ r.mtype)
        → (m.message ≡ r.message) ⊎ TextFor times (request_of r.mtype) r.message m.message
        → TextFor (time ∷ []) (request_of r.mtype) r.message (reply_text time k m.message)
    text t x =
        let f : request_of r.mtype ≡ k = ap request_of (sym t) ∙ e in
        subst
          (λ j. TextFor (time ∷ []) (request_of r.mtype) r.message (reply_text time j m.message)) f
          (reply_text-TextFor time times (request_of r.mtype) r.message m.message x)

    go : Answering times r m → IsAnswer (time ∷ []) r (reply time k m)
    go (inl q) = (
      ap (λ u. u.mtype) q,
      ap (λ u. u.id) q,
      text (ap (λ u. u.mtype) q) (inl (ap (λ u. u.message) q)),
    )
    go (inr (t, i, x)) = (t, i, text t (inr x))

pub reply-AnswersOne :
    (time : Text) (times : List Text) (k : Request) (rs : List Message) (m : Message)
    → request_of m.mtype ≡ k
    → Asked times rs m
    → AnswersOne (time ∷ []) rs (reply time k m)
reply-AnswersOne time times k [] m e a = a
reply-AnswersOne time times k (r ∷ rs) m e (inl a) = inl (reply-IsAnswer time times k r m e a)
reply-AnswersOne time times k (r ∷ rs) m e (inr a) = inr (reply-AnswersOne time times k rs m e a)
