-- ===== src/Namespace/Lists.antt =====
-- Lists of flows of sdk/pkg/netnsproxy/proxy_linux.go: their queues and keys.
use agents_net.Base.{
  suc, ◌≡◌, ◌≤◌, inl, inr, refl, sym, ap, ◌∙◌, arith, Bool, false, ◌&&◌, Bool-cases, none, List, [],
  ◌∷◌, ◌++◌, map, All, length, length-append, ltb,
}
use agents_net.Base.Bytes.{Bytes}
use agents_net.Namespace.{FlowKey, key_eq, Flow, max_packets, push, find, push_at}

-- The keys are pairwise different.
abbrev pub Distinct : List FlowKey → Type 0
Distinct [] = Unit
Distinct (k ∷ ks) = All (λ j. key_eq j k ≡ false) ks × Distinct ks

abbrev pub keys : List Flow → List FlowKey
keys = map (λ f. f.key)

abbrev pub IsShort : Flow → Type 0
IsShort f = length f.queue ≤ max_packets

pub push-key : (b : Bool) (packet : Bytes) (f : Flow) → (push b packet f).key ≡ f.key
unfolding push
push-key b packet f = elim (Bool-cases (f.closed && b)) [
  | inl e ↦ rw (e, push) refl
  | inr e ↦ elim (Bool-cases (ltb (length f.queue) max_packets)) [
    | inl g ↦ rw (e, g, push) refl
    | inr g ↦ rw (e, g, push) refl
  ]
]

pub push-IsShort : (b : Bool) (packet : Bytes) (f : Flow) → IsShort f → IsShort (push b packet f)
unfolding push
push-IsShort b packet f h = elim (Bool-cases (f.closed && b)) [
  | inl e ↦ rw (e, push) h
  | inr e ↦ elim (Bool-cases (ltb (length f.queue) max_packets)) [
    | inl g ↦ rw (e, g, push) (ground (arith, g, length-append f.queue (packet ∷ [])))
    | inr g ↦ rw (e, g, push) h
  ]
]

pub push_at-keys :
    (b : Bool) (k : FlowKey) (packet : Bytes) (fs : List Flow)
    → keys (push_at b k packet fs) ≡ keys fs
unfolding push_at
push_at-keys b k packet [] = refl
push_at-keys b k packet (f ∷ fs) = elim (Bool-cases (key_eq f.key k)) [
  | inl e ↦ rw (e, push_at) (ap (λ j. j ∷ keys fs) (push-key b packet f))
  | inr e ↦ rw (e, push_at) (ap (λ l. f.key ∷ l) (push_at-keys b k packet fs))
]

pub push_at-IsShort :
    (b : Bool) (k : FlowKey) (packet : Bytes) (fs : List Flow)
    → All IsShort fs
    → All IsShort (push_at b k packet fs)
unfolding push_at
push_at-IsShort b k packet [] h = tt
push_at-IsShort b k packet (f ∷ fs) (hf, hs) = elim (Bool-cases (key_eq f.key k)) [
  | inl e ↦ rw (e, push_at) (push-IsShort b packet f hf, hs)
  | inr e ↦ rw (e, push_at) (hf, push_at-IsShort b k packet fs hs)
]

pub length-keys : (fs : List Flow) → length (keys fs) ≡ length fs
length-keys [] = refl
length-keys (f ∷ fs) = ap suc (length-keys fs)

pub push_at-length :
    (b : Bool) (k : FlowKey) (packet : Bytes) (fs : List Flow)
    → length (push_at b k packet fs) ≡ length fs
push_at-length b k packet fs =
    sym (length-keys (push_at b k packet fs))
    ∙ ap length (push_at-keys b k packet fs)
    ∙ length-keys fs

pub find-none :
    (k : FlowKey) (fs : List Flow) → find k fs ≡ none → All (λ j. key_eq j k ≡ false) (keys fs)
unfolding find
find-none k [] h = tt
find-none k (f ∷ fs) h = elim (Bool-cases (key_eq f.key k)) [
  | inl e ↦ let h' = rw (e, find) at h in cc
  | inr e ↦ (e, find-none k fs (rw (e, find) at h))
]

pub keys-replace :
    (before after : List Flow) (f f' : Flow)
    → f'.key ≡ f.key
    → keys (before ++ f' ∷ after) ≡ keys (before ++ f ∷ after)
keys-replace [] after f f' e = ap (λ k. k ∷ keys after) e
keys-replace (g ∷ before) after f f' e = ap (λ l. g.key ∷ l) (keys-replace before after f f' e)

module _ (P : Flow → Type 0) where
  pub All-replace :
      (before after : List Flow) (f f' : Flow)
      → P f'
      → All P (before ++ f ∷ after)
      → All P (before ++ f' ∷ after)
  All-replace [] after f f' p (_, h) = (p, h)
  All-replace (g ∷ before) after f f' p (q, h) = (q, All-replace before after f f' p h)

  pub All-delete :
      (before after : List Flow) (f : Flow) → All P (before ++ f ∷ after) → All P (before ++ after)
  All-delete [] after f (_, h) = h
  All-delete (g ∷ before) after f (q, h) = (q, All-delete before after f h)

pub apart-delete :
    (k : FlowKey) (before after : List Flow) (f : Flow)
    → All (λ j. key_eq j k ≡ false) (keys (before ++ f ∷ after))
    → All (λ j. key_eq j k ≡ false) (keys (before ++ after))
apart-delete k [] after f (_, h) = h
apart-delete k (g ∷ before) after f (q, h) = (q, apart-delete k before after f h)

pub Distinct-delete :
    (before after : List Flow) (f : Flow)
    → Distinct (keys (before ++ f ∷ after))
    → Distinct (keys (before ++ after))
Distinct-delete [] after f (_, h) = h
Distinct-delete (g ∷ before) after f (q, h) =
    (apart-delete g.key before after f q, Distinct-delete before after f h)
