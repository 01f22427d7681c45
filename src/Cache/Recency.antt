-- ===== src/Cache/Recency.antt =====
-- The cache against its specification: a list of ids with their contents, most recently used first,
-- with no addresses, no map and no byte count.
use mcp_content_guard.Base.{
  ℕ, ◌+◌, ◌^◌, ◌<◌, ◌≡◌, refl, sym, ap, ap₂, ◌∙◌, Option, some, none, List, [], ◌∷◌, leb,
  if◌then◌else◌, arith, Bool-cases, Option-cases, inl, inr, length,
}
use mcp_content_guard.Base.Bytes.{Bytes, bytes_eq, bytes_eq_iff}
use mcp_content_guard.Base.Dictionary.{Dictionary, lookup, delete}
use mcp_content_guard.Cache.{Node, Cache, remove_node, hex, store, get}
use mcp_content_guard.Cache.Budget.{total, fitting, kept}
use mcp_content_guard.Cache.Nodes.{find, find-id, Apart, Distinct, Apart-find}
use mcp_content_guard.Cache.Front.{move_to_front-IsFront}
use mcp_content_guard.Cache.Invariant.{IsValid, get-IsValid}
use mcp_content_guard.Cache.Calls.{store-IsStored}

abbrev pub Recents : Type 0
Recents = Dictionary Bytes

abbrev pub view : List Node → Recents
view [] = []
view (e ∷ l) = (e.id, e.content) ∷ view l

-- The most recent entries, as long as they fit into `max` bytes of which `used` are taken.
pub recents_fitting : ℕ → ℕ → Recents → Recents
recents_fitting max used [] = []
recents_fitting max used ((id, content) ∷ s) =
    let rest = recents_fitting max (used + length content) s in
    if leb (used + length content) max then (id, content) ∷ rest else []

unfoldable pub recents_store : ℕ → Bytes → Bytes → Recents → Recents
unfolding recents_fitting
recents_store max id content s =
    (id, content)
    ∷ (if leb (length content) max then recents_fitting max (length content) s else [])

unfoldable pub recents_get : Bytes → Recents → Recents × Option Bytes
recents_get id s = elim (lookup id s) [
  | none ↦ (s, none)
  | some content ↦ ((id, content) ∷ delete id s, some content)
]

pub data Call : Type 0 where
  -- `Store` with what `rand.Read` returns to it
  store_call : Option Bytes → Bytes → Call
  get_call : Bytes → Call

unfoldable pub step : Call → Cache → Cache × Option Bytes
step (store_call random content) c = store random content c
step (get_call id) c = get id c

-- A sequence of calls, with what they return.
unfoldable pub run : List Call → Cache → Cache × List (Option Bytes)
unfolding step
run [] c = (c, [])
run (call ∷ calls) c =
    let (c', result) = step call c in let (last, results) = run calls c' in (last, result ∷ results)

unfoldable pub recents_step : ℕ → Call → Recents → Recents × Option Bytes
unfolding recents_store recents_get
recents_step max (store_call none content) s = (s, none)
recents_step max (store_call (some random) content) s =
    (recents_store max (hex random) content s, some (hex random))
recents_step max (get_call id) s = recents_get id s

unfoldable pub recents_run : ℕ → List Call → Recents → Recents × List (Option Bytes)
unfolding recents_step
recents_run max [] s = (s, [])
recents_run max (call ∷ calls) s =
    let (s', result) = recents_step max call s in
    let (last, results) = recents_run max calls s' in (last, result ∷ results)

-- Every id that is drawn is unused when it is drawn, and there is memory for every entry.
abbrev pub CanStep : Call → Cache → Type 0
CanStep (store_call none content) c = Unit
CanStep (store_call (some random) content) c =
    (lookup (hex random) c.items ≡ none) × (total c.lru + length content < 2 ^ 63)
CanStep (get_call id) c = Unit

abbrev pub CanRun : List Call → Cache → Type 0
CanRun [] c = Unit
CanRun (call ∷ calls) c = CanStep call c × CanRun calls (step call c).0

view-fitting :
    (max used : ℕ) (l : List Node) → view (fitting max used l) ≡ recents_fitting max used (view l)
unfolding fitting recents_fitting
view-fitting max used [] = refl
view-fitting max used (e ∷ l) = ground (arith, view-fitting max (used + length e.content) l)

view-kept :
    (max size : ℕ) (l : List Node)
    → view (kept max size l) ≡ (if leb size max then recents_fitting max size (view l) else [])
unfolding kept
view-kept max size l = ground (arith, view-fitting max size l)

lookup-view :
    (k : Bytes) (l : List Node) (e : Node) → find k l ≡ some e → lookup k (view l) ≡ some e.content
unfolding find lookup
lookup-view k [] e h = cc
lookup-view k (f ∷ l) e h = ground (arith, lookup-view k l e)

lookup-view-none : (k : Bytes) (l : List Node) → find k l ≡ none → lookup k (view l) ≡ none
unfolding find lookup
lookup-view-none k [] h = refl
lookup-view-none k (f ∷ l) h = ground (arith, lookup-view-none k l)

delete-view-Apart : (e : Node) (l : List Node) → Apart e l → delete e.id (view l) ≡ view l
unfolding delete
delete-view-Apart e [] a = refl
delete-view-Apart e (f ∷ l) a = ground (arith, delete-view-Apart e l a.2)

view-remove_node :
    (k : Bytes) (e : Node) (l : List Node)
    → Distinct l
    → find k l ≡ some e
    → view (remove_node e.addr l) ≡ delete k (view l)
unfolding find remove_node delete
view-remove_node k e [] d h = cc
view-remove_node k e (f ∷ l) d h = elim (Bool-cases (bytes_eq f.id k)) [
  | inl here ↦ ground (arith, delete-view-Apart f l d.0, bytes_eq_iff f.id k)
  | inr there ↦
      let (other, _) = Apart-find f e k l d.0 (ground arith) in
      ground (arith, view-remove_node k e l d.1)
]

-- One call of the cache is one step of the specification.
pub record Refines (max : ℕ) (c' : Cache × Option Bytes) (s' : Recents × Option Bytes)
    : Type 0 where
  pub valid : IsValid c'.0
  pub max_bytes : c'.0.max_bytes ≡ max
  pub same_view : view c'.0.lru ≡ s'.0
  pub same_result : c'.1 ≡ s'.1

get-Refines :
    (id : Bytes) (c : Cache)
    → IsValid c
    → Refines c.max_bytes (get id c) (recents_get id (view c.lru))
unfolding recents_get
get-Refines id c v = elim (Option-cases (lookup id c.items)) [
  | inl miss ↦
      let p : lookup id (view c.lru) ≡ none =
        lookup-view-none id c.lru (sym (v.agrees id) ∙ miss) in
      rw (p, recents_get)
        (record {
          valid = get-IsValid id c v;
          max_bytes = unfold get in rw (miss, get);
          same_view = unfold get in rw (miss, get);
          same_result = unfold get in rw (miss, get);
        })
  | inr (e, hit) ↦
      let found : find id c.lru ≡ some e = sym (v.agrees id) ∙ hit in
      let p = lookup-view id c.lru e found in
      let f = move_to_front-IsFront c.next id e c.lru found v.distinct v.below in
      let same_id : e.id ≡ id = (bytes_eq_iff e.id id).0 (find-id id e c.lru found) in
      rw (p, recents_get)
        (record {
          valid = get-IsValid id c v;
          max_bytes = unfold get in rw (hit, get);
          same_view =
              unfold get in
              rw (hit, get)
                (ap view f.front
                  ∙ ap₂ (λ k s. (k, e.content) ∷ s) same_id
                      (view-remove_node id e c.lru v.distinct found));
          same_result = unfold get in rw (hit, get);
        })
]

step-Refines :
    (call : Call) (c : Cache)
    → IsValid c
    → CanStep call c
    → Refines c.max_bytes (step call c) (recents_step c.max_bytes call (view c.lru))
unfolding step recents_step
step-Refines (store_call none content) c v h = record {
  valid = unfold store in v;
  max_bytes = unfold store in refl;
  same_view = unfold store in refl;
  same_result = unfold store in refl;
}
step-Refines (store_call (some random) content) c v h =
    let s = store-IsStored random content c (record { valid = v; fresh = h.0; room = h.1 }) in
    record {
      valid = s.valid;
      max_bytes = s.max_bytes;
      same_view =
          ap view s.lru
          ∙ ap (◌∷◌ (hex random, content)) (view-kept c.max_bytes (length content) c.lru);
      same_result = unfold store in refl;
    }
step-Refines (get_call id) c v h = get-Refines id c v

-- Whatever the calls, from a valid cache, the cache returns what the specification returns, and
-- holds what it holds in the same order; if every id that is drawn is unused then, and there is
-- memory for every entry.
pub run-refines :
    (calls : List Call) (c : Cache)
    → IsValid c
    → CanRun calls c
    → (view (run calls c).0.lru ≡ (recents_run c.max_bytes calls (view c.lru)).0)
      × ((run calls c).1 ≡ (recents_run c.max_bytes calls (view c.lru)).1)
unfolding run recents_run
run-refines [] c v h = (refl, refl)
run-refines (call ∷ calls) c v h =
    let r = step-Refines call c v h.0 in
    let (views, results) = run-refines calls (step call c).0 r.valid h.1 in
    let same = ap₂ (λ max s. recents_run max calls s) r.max_bytes r.same_view in
    (views ∙ ap (λ t. t.0) same, ap₂ (λ x xs. x ∷ xs) r.same_result (results ∙ ap (λ t. t.1) same))

-- Whatever the calls, a valid cache stays valid: its byte count is the sum of the payload sizes,
-- and its map and its recency list hold the same entries; if every id that is drawn is unused
-- then, and there is memory for every entry.
pub run-IsValid :
    (calls : List Call) (c : Cache) → IsValid c → CanRun calls c → IsValid (run calls c).0
unfolding run
run-IsValid [] c v h = v
run-IsValid (call ∷ calls) c v h =
    run-IsValid calls (step call c).0 (step-Refines call c v h.0).valid h.1
