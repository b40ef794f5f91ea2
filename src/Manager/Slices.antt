-- ===== src/Manager/Slices.antt =====
-- cmd/main.go: the functions that configure TLS, and Go's slices of them, which may share an array.
use korder.Prelude.{
  ℕ, zero, suc, Option, none, some, List, [], ◌∷◌, ◌++◌, ◌==◌, ◌&&◌, ltb, if◌then◌else◌,
}
use korder.Prelude.Text.{Text, codes}

-- The two certificate watchers
pub data Watcher : Type 0 where
  webhook_certs metrics_certs : Watcher

-- The function disableHTTP2, and those that serve a watcher's certificate
pub data TlsOption : Type 0 where
  disable_http2 : TlsOption
  get_certificate : Watcher → TlsOption

-- What the options set of a tls.Config
pub record TlsConfig : Type 0 where
  pub next_protos : List Text
  pub certificate : Option Watcher

unfoldable pub configure : TlsOption → TlsConfig → TlsConfig
configure disable_http2 c = record c { next_protos = codes "http/1.1" ∷ [] }
configure (get_certificate w) c = record c { certificate = some w }

-- The arrays that are allocated, by number, with their elements
pub record Heap : Type 0 where
  pub next : ℕ
  pub cell : ℕ → ℕ → Option TlsOption

-- A slice from the start of its array
pub record Slice : Type 0 where
  pub array : ℕ
  pub len : ℕ
  pub cap : ℕ

abbrev pub nil_slice : Slice
nil_slice = record { array = 0; len = 0; cap = 0 }

abbrev pub write_cell : (ℕ → ℕ → Option TlsOption) → ℕ → ℕ → TlsOption → ℕ → ℕ → Option TlsOption
write_cell cell a i x b j = if a == b && (i == j) then some x else cell b j

-- The new array of an append that does not fit: the elements of the old one, up to its length.
abbrev pub copied : (ℕ → ℕ → Option TlsOption) → ℕ → Slice → ℕ → ℕ → Option TlsOption
copied cell fresh s b j =
    if fresh == b then (if ltb j s.len then cell s.array j else none) else cell b j

-- append(s, x); `capacity c n` is the capacity of a new array for n elements, after one of c.
unfoldable pub append : (ℕ → ℕ → ℕ) → Slice → TlsOption → Heap → Slice × Heap
append capacity s x h =
    if ltb s.len s.cap
    then (record s { len = suc s.len }, record h { cell = write_cell h.cell s.array s.len x })
    else (
      record { array = h.next; len = suc s.len; cap = capacity s.cap (suc s.len) },
      record { next = suc h.next; cell = write_cell (copied h.cell h.next s) h.next s.len x },
    )

-- The first elements of an array, and those of a slice
unfoldable pub prefix : (ℕ → Option TlsOption) → ℕ → List (Option TlsOption)
prefix cells zero = []
prefix cells (suc n) = prefix cells n ++ (cells n ∷ [])

unfoldable pub contents : Heap → Slice → List (Option TlsOption)
unfolding prefix
contents h s = prefix (h.cell s.array) s.len
