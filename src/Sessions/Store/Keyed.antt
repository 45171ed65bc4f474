-- ===== src/Sessions/Store/Keyed.antt =====
-- Each state is stored once, under its own session id (src/sessions/store.cpp).
use mathlib.Core.Bool.{false≢true}
use ghostclaw.Base.{
  ◌≡◌, refl, ap, sym, subst, ◌∙◌, true, false, List, [], ◌∷◌, Option, none, some, arith,
  if◌then◌else◌, inl, inr, Bool-cases, Option-cases,
}
use ghostclaw.Base.Text.{Bytes, equal, equal_iff, lines}
use ghostclaw.Common.{Result, ok, err}
use ghostclaw.Security.ToolPolicy.Names.{lookup}
use ghostclaw.Sessions.State.{SessionState, parse_session_state_jsonl}
use ghostclaw.Sessions.Store.{States, put, index_loop, load_state_index, store_result, touch_found}

abbrev pub AreKeyed : States → Type 0
AreKeyed [] = Unit
AreKeyed ((key, state) ∷ rest) = (state.session_id ≡ key) × (lookup key rest ≡ none) × AreKeyed rest

differs : (k key j : Bytes) → equal k key ≡ false → equal key j ≡ true → equal k j ≡ false
differs k key j other t =
    let e : key ≡ j = (equal_iff key j).0 t in subst (λ x. equal k x ≡ false) e other

equal_sym : (a b : Bytes) → equal a b ≡ false → equal b a ≡ false
equal_sym a b h = elim (Bool-cases (equal b a)) [
  | inr f ↦ f
  | inl t ↦ absurd (false≢true (sym h ∙ (equal_iff a b).1 (sym ((equal_iff b a).0 t))))
]

pub lookup-put :
    (key j : Bytes) (state : SessionState) (m : States)
    → lookup j (put key state m) ≡ (if equal key j then some state else lookup j m)
unfolding lookup put
lookup-put key j state [] = refl
lookup-put key j state ((k, old) ∷ rest) = elim (Bool-cases (equal k key)) [
  | inl same ↦
      let e : equal k j ≡ equal key j = ap (λ t. equal t j) ((equal_iff k key).0 same) in
      rw same (elim (Bool-cases (equal key j)) [
        | inl t ↦ rw (t, e ∙ t) refl
        | inr f ↦ rw (f, e ∙ f) refl
      ])
  | inr other ↦
      rw (other, lookup-put key j state rest)
        (elim (Bool-cases (equal key j)) [
          | inr f ↦ rw f refl
          | inl t ↦ rw (t, differs k key j other t) refl
        ])
]

pub put-AreKeyed :
    (key : Bytes) (state : SessionState) (m : States)
    → state.session_id ≡ key
    → AreKeyed m
    → AreKeyed (put key state m)
unfolding put
put-AreKeyed key state [] own h = (own, unfold lookup in refl, tt)
put-AreKeyed key state ((k, old) ∷ rest) own h = elim (Bool-cases (equal k key)) [
  | inl same ↦ let e : k ≡ key = (equal_iff k key).0 same in rw same (own ∙ sym e, h.1, h.2)
  | inr other ↦
      let ne : equal key k ≡ false = equal_sym k key other in
      rw other (h.0, lookup-put key k state rest ∙ rw ne h.1, put-AreKeyed key state rest own h.2)
]

store_result-AreKeyed :
    (r : Result SessionState) (m : States) → AreKeyed m → AreKeyed (store_result r m)
store_result-AreKeyed (err _) m h = h
store_result-AreKeyed (ok state) m h = put-AreKeyed state.session_id state m refl h

index_loop-AreKeyed : (texts : List Bytes) (m : States) → AreKeyed m → AreKeyed (index_loop texts m)
unfolding index_loop
index_loop-AreKeyed [] m h = h
index_loop-AreKeyed (line ∷ rest) m h =
    index_loop-AreKeyed rest _ (store_result-AreKeyed (parse_session_state_jsonl line) m h)

pub load_state_index-AreKeyed : (index : Option Bytes) → AreKeyed (load_state_index index)
unfolding load_state_index
load_state_index-AreKeyed none = tt
load_state_index-AreKeyed (some text) = index_loop-AreKeyed (lines [] text) [] tt

lookup-own :
    (j : Bytes) (m : States) {state : SessionState}
    → AreKeyed m
    → lookup j m ≡ some state
    → state.session_id ≡ j
unfolding lookup
lookup-own j [] h found = absurd cc
lookup-own j ((k, old) ∷ rest) {state} h found = elim (Bool-cases (equal k j)) [
  | inl same ↦
      let o : old ≡ state = ground (arith, same, found) in
      ap (λ t. t.session_id) (sym o) ∙ h.0 ∙ (equal_iff k j).0 same
  | inr other ↦ lookup-own j rest {state = state} h.2 (ground (arith, other, found))
]

-- A state that is found under an id is the id's own.
abbrev pub IsOwn : Bytes → Option SessionState → Type 0
IsOwn id none = Unit
IsOwn id (some state) = state.session_id ≡ id

pub lookup-IsOwn : (id : Bytes) (m : States) → AreKeyed m → IsOwn id (lookup id m)
lookup-IsOwn id m h = elim (Option-cases (lookup id m)) [
  | inl missing ↦ subst (IsOwn id) (sym missing) tt
  | inr (state, there) ↦ subst (IsOwn id) (sym there) (lookup-own id m {state = state} h there)
]

module _ (id : Bytes) (m : States) (h : AreKeyed m) where
  pub touch_found-AreKeyed :
      (timestamp : Bytes) (new : Result SessionState) (o : Option SessionState)
      → IsOwn id o
      → AreKeyed (touch_found timestamp id new o m)
  touch_found-AreKeyed timestamp new none own = store_result-AreKeyed new m h
  touch_found-AreKeyed timestamp new (some state) own = put-AreKeyed id _ m own h
