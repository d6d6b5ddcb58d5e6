-- ===== src/Storage/Types.antt =====
-- internal/storage/storage.go: the errors, the objects and the interface `Backend`, with the laws
-- that the clients of a backend rely on.
use nx_cache.Common.{
  ℕ, ◌≡◌, ap, Bool, true, false, ◌&&◌, Option, none, some, List, if◌then◌else◌, length, ltb, any,
  take, ◌≤◌, Text, text_eq, mem, Time,
}

-- An `error` that is not nil. `failure` is any error that the program does not tell apart.
pub data Fault : Type 0 where
  not_found already_exists incomplete load_failed failure : Fault

-- A value and a nil error, or an error.
pub data Result {ℓ} (A : Type ℓ) : Type ℓ where
  ok : A → Result A
  err : Fault → Result A

abbrev pub value_or {ℓ} : {A : Type ℓ} → A → Result A → A
value_or a (ok b) = b
value_or a (err e) = a

pub ok_injective {ℓ} : {A : Type ℓ} (a b : A) → ok a ≡ ok b → a ≡ b
ok_injective a b p = ap (value_or a) p

-- storage.Object
pub record Object : Type 0 where
  pub hash : Text
  pub size : ℕ
  pub last_modified : Time

-- What an `io.Reader` yields: its bytes, and whether it ends with an error instead of EOF.
pub record Body : Type 0 where
  pub bytes : Text
  pub broken : Bool

-- io.LimitReader(r, size): it ends at the limit, before an error of the reader behind it.
unfoldable pub limit_reader : Body → ℕ → Body
limit_reader r size = record {
  bytes = take size r.bytes;
  broken = r.broken && ltb (length r.bytes) size;
}

-- What is kept of an artifact.
pub record Stored : Type 0 where
  pub content : Text
  pub modified : Time

-- The artifacts' part of the interface `Backend`. An operation that writes returns its error, if
-- any, and the new state.
pub record Backend : Type 1 where
  pub State : Type 0
  pub exists : State → Text → Result Bool
  pub put : State → Text → Body → ℕ → Option Fault × State
  pub get : State → Text → Result (Text × ℕ)
  pub delete : State → List Text → Option Fault × State
  pub list : State → Result (List Object)

abbrev pub is_some {ℓ} : {A : Type ℓ} → Option A → Bool
is_some none = false
is_some (some a) = true

-- Whether what is kept was last modified at a time that passes a test.
abbrev pub modified_when : (Time → Bool) → Option Stored → Bool
modified_when p none = false
modified_when p (some o) = p o.modified

-- The contract of a backend, over what it holds.
pub record BackendLaws (b : Backend) : Type 1 where
  pub view : b.State → Text → Option Stored
  pub stamp : b.State → Time
  pub exists_ok : (s : b.State) (k : Text) (c : Bool) → b.exists s k ≡ ok c → c ≡ is_some (view s k)
  pub put_ok :
      (s : b.State) (k : Text) (body : Body) (n : ℕ)
      → (b.put s k body n).0 ≡ none
      → (view s k ≡ none)
        × (n ≤ length body.bytes)
        × ((j : Text)
            → view (b.put s k body n).1 j ≡ (
                if text_eq k j
                then some (record { content = take n body.bytes; modified = stamp s })
                else view s j))
  pub put_err :
      (s : b.State) (k : Text) (body : Body) (n : ℕ) (e : Fault)
      → (b.put s k body n).0 ≡ some e
      → (j : Text) (o : Stored) → view s j ≡ some o
      → view (b.put s k body n).1 j ≡ some o
  pub get_ok :
      (s : b.State) (k : Text) (content : Text) (n : ℕ)
      → b.get s k ≡ ok (content, n)
      → (o : Stored) × (view s k ≡ some o) × (o.content ≡ content) × (n ≡ length content)
  pub get_not_found : (s : b.State) (k : Text) → b.get s k ≡ err not_found → view s k ≡ none
  pub delete_ok :
      (s : b.State) (ks : List Text)
      → (b.delete s ks).0 ≡ none
      → (j : Text) → view (b.delete s ks).1 j ≡ (if mem j ks then none else view s j)
  pub delete_keeps :
      (s : b.State) (ks : List Text) (j : Text)
      → mem j ks ≡ false
      → view (b.delete s ks).1 j ≡ view s j
  pub IsSound : b.State → Type 0
  pub put_IsSound :
      (s : b.State) (k : Text) (body : Body) (n : ℕ) → IsSound s → IsSound (b.put s k body n).1
  pub delete_IsSound : (s : b.State) (ks : List Text) → IsSound s → IsSound (b.delete s ks).1
  -- The names that a listing does not leave out.
  pub is_listed : Text → Bool
  pub list_ok :
      (s : b.State) (os : List Object) (k : Text) (p : Time → Bool)
      → IsSound s
      → b.list s ≡ ok os
      → any (λ o. text_eq o.hash k && p o.last_modified) os
        ≡ (is_listed k && modified_when p (view s k))
