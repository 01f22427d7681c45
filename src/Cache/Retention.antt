-- ===== src/Cache/Retention.antt =====
-- What stays readable: while everything fits into the budget, no call loses a content.
use mathlib.Core.Option
use mcp_content_guard.Base.{
  ℕ, ◌+◌, ◌≤◌, ◌≡◌, refl, sym, ap, ◌∙◌, Option, some, none, List, ◌∷◌, arith, Bool-cases, inl, inr,
  length,
}
use mcp_content_guard.Base.Bytes.{Bytes, bytes_eq, bytes_eq_iff}
use mcp_content_guard.Base.Dictionary.{lookup}
use mcp_content_guard.Cache.{Node, Cache, new_node, hex, store, get}
use mcp_content_guard.Cache.Budget.{total, kept_all}
use mcp_content_guard.Cache.Nodes.{find}
use mcp_content_guard.Cache.Invariant.{IsValid, get-IsValid}
use mcp_content_guard.Cache.Calls.{store-IsStored, found-get, get-get}

-- A valid cache with at most `size` bytes more, in which everything can still be read.
pub record Retains (size : ℕ) (c c' : Cache) : Type 0 where
  pub valid : IsValid c'
  pub max_bytes : c'.max_bytes ≡ c.max_bytes
  pub bytes : total c'.lru ≤ total c.lru + size
  pub keeps : (id content : Bytes) → (get id c).1 ≡ some content → (get id c').1 ≡ some content

-- What `rand.Read` returns makes an unused id, if it returns anything.
abbrev pub IsUnused : Option Bytes → Cache → Type 0
IsUnused none c = Unit
IsUnused (some random) c = lookup (hex random) c.items ≡ none

pub Retains-refl : (size : ℕ) (c : Cache) → IsValid c → Retains size c c
Retains-refl size c v = record {
  valid = v;
  max_bytes = refl;
  bytes = omega arith;
  keeps = λ id content h. h;
}

pub Retains-trans :
    (m n size : ℕ) (a b c : Cache) → m + n ≤ size → Retains m a b → Retains n b c → Retains size a c
Retains-trans m n size a b c le h k = record {
  valid = k.valid;
  max_bytes = k.max_bytes ∙ h.max_bytes;
  bytes = omega (arith, h.bytes, k.bytes);
  keeps = λ id content p. k.keeps id content (h.keeps id content p);
}

get-find :
    (id : Bytes) (c : Cache)
    → IsValid c
    → (get id c).1 ≡ Option.map (λ e. e.content) (find id c.lru)
get-find id c v = found-get id c ∙ ap (Option.map (λ (e : Node). e.content)) (v.agrees id)

none_found : {content : Bytes} → ¬ (Option.map (λ (f : Node). f.content) none ≡ some content)
none_found h = cc

find_behind :
    (id k : Bytes) (e : Node) (l : List Node)
    → e.id ≡ k
    → find k l ≡ none
    → (content : Bytes) → Option.map (λ (f : Node). f.content) (find id l) ≡ some content
    → find id (e ∷ l) ≡ find id l
unfolding find
find_behind id k e l same fresh content h = elim (Bool-cases (bytes_eq e.id id)) [
  | inr other ↦ rw other refl
  | inl here ↦
      let p : k ≡ id = sym same ∙ (bytes_eq_iff e.id id).0 here in
      let q : find id l ≡ none = ap (λ j. find j l) (sym p) ∙ fresh in
      absurd (none_found (sym (ap (Option.map (λ (f : Node). f.content)) q) ∙ h))
]

pub cur_bytes-get : (id : Bytes) (c : Cache) → (get id c).0.cur_bytes ≡ c.cur_bytes
unfolding get
cur_bytes-get id c = ground arith

pub get-Retains : (size : ℕ) (id : Bytes) (c : Cache) → IsValid c → Retains size c (get id c).0
get-Retains size id c v =
    let v' = get-IsValid id c v in
    record {
      valid = v';
      max_bytes = unfold get in ground arith;
      bytes = omega (arith, v.counted, v'.counted, cur_bytes-get id c);
      keeps = λ j content h. get-get id j c ∙ h;
    }

pub store-Retains :
    (size : ℕ) (random : Option Bytes) (content : Bytes) (c : Cache)
    → IsValid c
    → IsUnused random c
    → length content ≤ size
    → total c.lru + size ≤ c.max_bytes
    → Retains size c (store random content c).0
store-Retains size none content c v fresh small fits = unfold store in Retains-refl size c v
store-Retains size (some random) content c v fresh small fits =
    let s =
      store-IsStored random content c
        (record { valid = v; fresh = fresh; room = omega (arith, v.capacity) }) in
    let node = new_node (hex random) content c in
    let lru : (store (some random) content c).0.lru ≡ node ∷ c.lru =
      s.lru ∙ ap (◌∷◌ node) (kept_all c.max_bytes (length content) c.lru (omega arith)) in
    let stored = (store (some random) content c).0 in
    record {
      valid = s.valid;
      max_bytes = s.max_bytes;
      bytes = rw lru (omega arith);
      keeps = λ id found h.
          let h' = sym (get-find id c v) ∙ h in
          get-find id stored s.valid
          ∙ ap (λ l. Option.map (λ (e : Node). e.content) (find id l)) lru
          ∙ ap (Option.map (λ (e : Node). e.content)) (
              find_behind id (hex random) node c.lru refl (sym (v.agrees (hex random)) ∙ fresh)
                found h')
          ∙ h';
    }
