-- ===== src/Ffi/Server/Laws.antt =====
-- livekit-ffi/src/server/mod.rs: the life of a handle.
use livekit_rust.Base.{
  ℕ, ◌+◌, ◌^◌, ◌≤◌, ◌<◌, ◌≡◌, ◌≢◌, refl, true, false, [], ◌∷◌, none, some, arith, sym,
  if◌then◌else◌, nat_eq,
}
use livekit_rust.Base.Outcome.{ok, err}
use livekit_rust.Ffi.Server.{
  HandleKind, Handle, Handles, handle_not_found, handle_is_not_a, same_kind, find, put, delete,
  Server, retrieve_handle, drop_handle, store_new,
}

nat_eq_self : (n : ℕ) → nat_eq n n ≡ true
nat_eq_self n = ground arith

nat_eq-pos : (n : ℕ) → 1 ≤ n → nat_eq n 0 ≡ false
nat_eq-pos n h = ground arith

pub nat_eq-ne : (n k : ℕ) → n ≢ k → nat_eq n k ≡ false
nat_eq-ne n k h = ground arith

pub find-put :
    (i j : ℕ) (h : Handle) (m : Handles)
    → find j (put i h m) ≡ (if nat_eq i j then some h else find j m)
unfolding find put
find-put i j h [] = refl
find-put i j h ((k, g) ∷ m) = ground (arith, find-put i j h m)

pub find-delete :
    (i j : ℕ) (m : Handles) → find j (delete i m) ≡ (if nat_eq i j then none else find j m)
unfolding find delete
find-delete i j [] = ground arith
find-delete i j ((k, g) ∷ m) = ground (arith, find-delete i j m)

module _ {Message : Type 0} where
  -- Every stored handle has an identifier that was given out, and the counter has not wrapped.
  pub record IsFresh (s : Server Message) : Type 0 where
    pub started : 1 ≤ s.counter
    pub below : (id : ℕ) → s.counter ≤ id → find id s.handles ≡ none

  -- A new handle keeps the server fresh, while the counter does not wrap.
  pub store_new-IsFresh :
      (s : Server Message) (h : Handle)
      → IsFresh s
      → s.counter + 1 < 2 ^ 64
      → IsFresh (store_new Message h s).1 × ((store_new Message h s).1.counter ≡ s.counter + 1)
  unfolding store_new
  store_new-IsFresh s h fresh room = (
    record {
      started = ground arith;
      below = λ id le. ground (arith, find-put s.counter id h s.handles, fresh.below id);
    },
    ground arith,
  )

  retrieve_free :
      (s : Server Message) (kind : HandleKind) (id : ℕ)
      → 1 ≤ id
      → find id s.handles ≡ none
      → retrieve_handle Message kind id s ≡ err handle_not_found
  unfolding retrieve_handle
  retrieve_free s kind id pos free = ground arith

  retrieve_stored :
      (s : Server Message) (h : Handle) (kind : HandleKind)
      → 1 ≤ s.counter
      → retrieve_handle Message kind s.counter (store_new Message h s).1
        ≡ (if same_kind h.kind kind then ok h else err (handle_is_not_a kind))
  unfolding retrieve_handle store_new
  retrieve_stored s h kind pos =
      rw (find-put s.counter s.counter h s.handles)
        (rw (nat_eq_self s.counter, nat_eq-pos s.counter pos) refl)

  retrieve_other :
      (s : Server Message) (h : Handle) (kind : HandleKind) (j : ℕ)
      → j ≢ s.counter
      → retrieve_handle Message kind j (store_new Message h s).1 ≡ retrieve_handle Message kind j s
  unfolding retrieve_handle store_new
  retrieve_other s h kind j ne =
      rw (find-put s.counter j h s.handles) (rw (nat_eq-ne s.counter j (λ e. ne (sym e))) refl)

  -- A new handle: its identifier is not the invalid one and was free; what it holds is found under
  -- it at its type and refused at another; no other identifier is touched; the server stays fresh.
  -- Dropped, it says so, is not found any more, and dropping it again says that there is nothing.
  -- Assumed: a fresh server that has given out less than 2^64 - 1 identifiers.
  pub store_new_lem :
      (s : Server Message) (h : Handle) (kind : HandleKind)
      → IsFresh s
      → s.counter + 1 < 2 ^ 64
      → let (id, s1) = store_new Message h s in
        let (there, s2) = drop_handle Message id s1 in
        (id ≢ 0)
        × (retrieve_handle Message kind id s ≡ err handle_not_found)
        × (retrieve_handle Message kind id s1
            ≡ (if same_kind h.kind kind then ok h else err (handle_is_not_a kind)))
        × ((j : ℕ) → j ≢ id → retrieve_handle Message kind j s1 ≡ retrieve_handle Message kind j s)
        × IsFresh s1
        × (there ≡ true)
        × (retrieve_handle Message kind id s2 ≡ err handle_not_found)
        × ((drop_handle Message id s2).0 ≡ false)
  unfolding store_new drop_handle
  store_new_lem s h kind fresh room = (
    ground arith,
    retrieve_free s kind s.counter fresh.started (fresh.below s.counter (omega arith)),
    retrieve_stored s h kind fresh.started,
    (λ j ne. retrieve_other s h kind j ne),
    (store_new-IsFresh s h fresh room).0,
    ground (arith, find-put s.counter s.counter h s.handles),
    retrieve_free _ kind s.counter fresh.started
        (ground (arith, find-delete s.counter s.counter (put s.counter h s.handles))),
    ground (arith, find-delete s.counter s.counter (put s.counter h s.handles)),
  )
