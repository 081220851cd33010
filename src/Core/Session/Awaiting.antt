-- ===== src/Core/Session/Awaiting.antt =====
-- ramqp-core/src/session/state.rs: what a disposition of the peer does to the sends that wait.
use r_amqp.Common.{
  ℕ, ◌≡◌, ◌⊎◌, refl, arith, ◌∙◌, Bool, true, false, ◌&&◌, ◌==◌, if◌then◌else◌, Option, none, some,
  is_some, List, [], ◌∷◌, ◌++◌, is_empty, Bool-cases, Option-cases, inl, inr, get, remove,
  get-remove, contains_key, ==_iff,
}
use mathlib.Core.Option
use r_amqp.Core.Performatives.{DeliveryState}
use r_amqp.Core.Unsettled.{UnsettledMap, UnsettledEntry, update_entry, apply_disposition, in_range}
use r_amqp.Core.Unsettled.Ranges.{apply_disposition-update_entry, elem}
use r_amqp.Core.Session.State.{SenderLink, Effect, answer, settled_as}
use r_amqp.Core.Session.Settling.{
  resolution, resolve_ids, complete_send, disposition_event, disposition_on_sender, settle_sent,
}

-- How often a reply is answered.
abbrev pub answers_to : ℕ → Effect → ℕ
answers_to reply (answer r a) = if r == reply then 1 else 0
answers_to reply _ = 0

-- Each send that waits is for a delivery that is not settled.
abbrev pub AwaitsUnsettled : SenderLink → Type 0
AwaitsUnsettled l = (id : ℕ) → contains_key id l.pending ≡ true → contains_key id l.unsettled ≡ true

get-resolve_ids :
    (handle : ℕ) (state : Option DeliveryState) (settled : Bool) (ids : List ℕ)
    (pending : List (ℕ × ℕ)) (i : ℕ)
    → get i (resolve_ids handle state settled ids pending).0
      ≡ (if elem i ids && is_some (resolution state settled) then none else get i pending)
unfolding resolve_ids complete_send
get-resolve_ids handle state settled [] pending i = ground arith
get-resolve_ids handle state settled (j ∷ ids) pending i =
    elim (Option-cases (resolution state settled)) [
      | inl e ↦ rw e (ground (arith, get-resolve_ids handle state settled ids pending i, e))
      | inr (o, e) ↦ elim (Option-cases (get j pending)) [
        | inl f ↦
            rw (e, f)
              (ground (arith, get-resolve_ids handle state settled ids pending i, e, ==_iff j i))
        | inr (reply, f) ↦
            rw (e, f)
              (ground (
                arith,
                get-resolve_ids handle state settled ids (remove j pending) i,
                e,
                get-remove i j pending,
                ==_iff j i,
                ==_iff i j,
              ))
      ]
    ]

-- The outcome is sent to the reply.
abbrev pub Answered : ℕ → DeliveryState → List Effect → Type 0
Answered reply o [] = ⊥
Answered reply o (e ∷ es) = (e ≡ answer reply (settled_as o)) ⊎ Answered reply o es

Answered-append_right :
    (reply : ℕ) (o : DeliveryState) (xs ys : List Effect)
    → Answered reply o ys
    → Answered reply o (xs ++ ys)
Answered-append_right reply o [] ys a = a
Answered-append_right reply o (x ∷ xs) ys a = inr (Answered-append_right reply o xs ys a)

resolve_ids-Answered :
    (handle : ℕ) (state : Option DeliveryState) (settled : Bool) (ids : List ℕ)
    (pending : List (ℕ × ℕ)) (i reply : ℕ) (o : DeliveryState)
    → resolution state settled ≡ some o
    → get i pending ≡ some reply
    → elem i ids ≡ true
    → Answered reply o (resolve_ids handle state settled ids pending).1
unfolding resolve_ids complete_send
resolve_ids-Answered handle state settled [] pending i reply o r g m = cc
resolve_ids-Answered handle state settled (j ∷ ids) pending i reply o r g m =
    elim (Bool-cases (j == i)) [
      | inl same ↦
          let e : get j pending ≡ some reply = ground (arith, ==_iff j i) in rw (r, e) (inl refl)
      | inr apart ↦
          let m' : elem i ids ≡ true = ground arith in
          elim (Option-cases (get j pending)) [
            | inl f ↦
                rw (r, f)
                  (Answered-append_right reply o (disposition_event handle j state settled) _
                    (resolve_ids-Answered handle state settled ids pending i reply o r g m'))
            | inr (other, f) ↦
                rw (r, f)
                  (inr (
                    Answered-append_right reply o (disposition_event handle j state settled) _ (
                      resolve_ids-Answered handle state settled ids (remove j pending) i reply o r
                        (ground (arith, get-remove i j pending, ==_iff i j, ==_iff j i)) m')))
          ]
    ]

-- What a disposition does to the sends that wait and to their answers, by what it resolves to.
pub record IsResolved (first last : ℕ) (state : Option DeliveryState) (settled : Bool)
    (l l' : SenderLink) (effects : List Effect) : Type 0 where
  pub pending :
      (i : ℕ)
      → get i l'.pending ≡ (
          if in_range first last i
            && contains_key i l.unsettled
            && is_some (resolution state settled)
          then none
          else get i l.pending)
  pub answered :
      (i reply : ℕ) (o : DeliveryState)
      → resolution state settled ≡ some o
      → get i l.pending ≡ some reply
      → (in_range first last i && contains_key i l.unsettled) ≡ true
      → Answered reply o effects
  pub awaits : AwaitsUnsettled l'

settled-resolves : (state : Option DeliveryState) → is_some (resolution state true) ≡ true
unfolding resolution
settled-resolves none = refl
settled-resolves (some st) = ground arith

is_some-map :
    (f : UnsettledEntry → UnsettledEntry) (o : Option UnsettledEntry)
    → is_some (Option.map f o) ≡ is_some o
is_some-map f none = refl
is_some-map f (some e) = refl

still_awaits :
    (first last : ℕ) (state : Option DeliveryState) (settled : Bool) (l : SenderLink)
    (m : UnsettledMap) (ids : List ℕ)
    → AwaitsUnsettled l
    → apply_disposition first last state settled l.unsettled ≡ some (m, ids)
    → (i : ℕ) → contains_key i (resolve_ids l.handle state settled ids l.pending).0 ≡ true
    → contains_key i m ≡ true
still_awaits first last state true l m ids w a i c =
    let f = apply_disposition-update_entry first last state true l.unsettled m ids i a in
    ground (
      arith,
      f.0,
      f.1,
      get-resolve_ids l.handle state true ids l.pending i,
      w i,
      settled-resolves state,
    )
still_awaits first last state false l m ids w a i c =
    let f = apply_disposition-update_entry first last state false l.unsettled m ids i a in
    ground (
      arith,
      f.0,
      f.1,
      get-resolve_ids l.handle state false ids l.pending i,
      w i,
      is_some-map (update_entry state) (get i l.unsettled),
    )

settle_sent-IsResolved :
    (first last : ℕ) (state : Option DeliveryState) (settled : Bool) (l l' : SenderLink)
    (m : UnsettledMap) (ids : List ℕ) (effects : List Effect)
    → AwaitsUnsettled l
    → apply_disposition first last state settled l.unsettled ≡ some (m, ids)
    → settle_sent state settled l (some (m, ids)) ≡ some (l', effects)
    → IsResolved first last state settled l l' effects
unfolding settle_sent
settle_sent-IsResolved first last state settled l l' m ids effects w a e =
    let r = resolve_ids l.handle state settled ids l.pending in
    let el : record l { unsettled = m; pending = r.0 } ≡ l' = ground arith in
    let ee : r.1 ≡ effects = ground arith in
    rw (← el, ← ee)
      (record {
        pending = λ i. ground (
          arith,
          get-resolve_ids l.handle state settled ids l.pending i,
          (apply_disposition-update_entry first last state settled l.unsettled m ids i a).0,
        );
        answered = λ i reply o q g c.
            resolve_ids-Answered l.handle state settled ids l.pending i reply o q g (
              (apply_disposition-update_entry first last state settled l.unsettled m ids i a).0
              ∙ c);
        awaits = still_awaits first last state settled l m ids w a;
      })

untracked : (i : ℕ) (m : UnsettledMap) → is_empty m ≡ true → contains_key i m ≡ false
untracked i [] h = refl
untracked i (e ∷ m) h = cc

untracked-IsResolved :
    (first last : ℕ) (state : Option DeliveryState) (settled : Bool) (l : SenderLink)
    → AwaitsUnsettled l
    → is_empty l.unsettled ≡ true
    → IsResolved first last state settled l l []
untracked-IsResolved first last state settled l w bare = record {
  pending = λ i. ground (arith, untracked i l.unsettled bare);
  answered = λ i reply o q g c. absurd (ground (arith, untracked i l.unsettled bare, c));
  awaits = w;
}

pub disposition_on_sender-IsResolved :
    (first last : ℕ) (state : Option DeliveryState) (settled : Bool) (l l' : SenderLink)
    (effects : List Effect)
    → AwaitsUnsettled l
    → disposition_on_sender first last state settled l ≡ some (l', effects)
    → IsResolved first last state settled l l' effects
unfolding disposition_on_sender settle_sent
disposition_on_sender-IsResolved first last state settled l l' effects w e =
    elim (Bool-cases (is_empty l.unsettled)) [
      | inl bare ↦
          let e' : ◌≡◌ {A = Option (SenderLink × List Effect)} (some (l, [])) (some (l', effects)) =
            rw bare at e in
          let el : l ≡ l' = ground arith in
          let ee : ◌≡◌ {A = List Effect} [] effects = ground arith in
          rw (← el, ← ee) (untracked-IsResolved first last state settled l w bare)
      | inr full ↦ elim (Option-cases (apply_disposition first last state settled l.unsettled)) [
        | inl panic ↦ absurd (cc (rw (full, panic) at e))
        | inr ((m, ids), a) ↦
            settle_sent-IsResolved first last state settled l l' m ids effects w a
              (rw (full, a) at e)
      ]
    ]
