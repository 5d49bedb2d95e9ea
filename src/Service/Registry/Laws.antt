-- ===== src/Service/Registry/Laws.antt =====
-- Which spawn a cancellation through `TaskRegistry` of src/service/deps.rs reaches.
use app_salmon.Base.{
  ◌<◌, ◌≡◌, ◌≢◌, refl, ◌∙◌, Option, none, some, List, [], ◌∷◌, true, false, All, ◌==◌, Bool-cases,
  inl, inr, arith,
}
use app_salmon.Domain.Ids.{ClusterId}
use app_salmon.Service.Registry.{
  Token, TaskRegistry, token_of, without_id, is_cancelled, register, cancel_token, cancel,
  unregister,
}
use app_salmon.Storage.Slots.{contains}

-- What one of the tasks does to the registry.
pub data Operation : Type 0 where
  registers cancels unregisters : ClusterId → Operation

abbrev pub about : Operation → ClusterId
about (registers id) = id
about (cancels id) = id
about (unregisters id) = id

abbrev pub operate : Operation → TaskRegistry → TaskRegistry
operate (registers id) r = (register id r).1
operate (cancels id) r = cancel id r
operate (unregisters id) r = unregister id r

abbrev pub operate_all : List Operation → TaskRegistry → TaskRegistry
operate_all [] r = r
operate_all (o ∷ os) r = operate_all os (operate o r)

-- The tokens that have been handed out came before the next one.
abbrev pub IsRegistry : TaskRegistry → Type 0
IsRegistry r = All (λ e. e.1 < r.fresh) r.tokens × All (λ t. t < r.fresh) r.cancelled

abbrev Other : ClusterId → Token → ClusterId × Token → Type 0
Other id t e = (e.0 ≢ id) → e.1 ≢ t

-- The cluster's spawn is in flight with the token `t`, which nobody has cancelled.
record InFlight (id : ClusterId) (t : Token) (r : TaskRegistry) : Type 0 where
  held : token_of id r.tokens ≡ some t
  live : is_cancelled t r ≡ false
  old : t < r.fresh
  alone : All (Other id t) r.tokens

All-without_id :
    (P : ClusterId × Token → Type 0) (id : ClusterId) (es : List (ClusterId × Token))
    → All P es
    → All P (without_id id es)
All-without_id P id [] h = tt
All-without_id P id (e ∷ es) (h, hs) = elim (Bool-cases (e.0 == id)) [
  | inl same ↦ rw same (All-without_id P id es hs)
  | inr differ ↦ rw differ (h, All-without_id P id es hs)
]

token_of-without_id :
    (id key : ClusterId) (es : List (ClusterId × Token))
    → key ≢ id
    → token_of id (without_id key es) ≡ token_of id es
token_of-without_id id key [] n = refl
token_of-without_id id key (e ∷ es) n = ground (arith, n, token_of-without_id id key es n)

token_of-gone :
    (id : ClusterId) (es : List (ClusterId × Token)) → token_of id (without_id id es) ≡ none
token_of-gone id [] = refl
token_of-gone id (e ∷ es) = ground (arith, token_of-gone id es)

token_of-Other :
    (id key : ClusterId) (t u : Token) (es : List (ClusterId × Token))
    → key ≢ id
    → All (Other id t) es
    → token_of key es ≡ some u
    → u ≢ t
token_of-Other id key t u [] n h e = absurd (cc)
token_of-Other id key t u (x ∷ es) n (o, h) e = elim (Bool-cases (x.0 == key)) [
  | inl same ↦
      let token : x.1 ≡ u = ground (arith, same, e) in
      let differ : x.1 ≢ t = o (λ k. ground (arith, same, n, k)) in λ k. differ (token ∙ k)
  | inr differ ↦ token_of-Other id key t u es n h (rw differ at e)
]

absent : (t : Token) (ts : List Token) → All (λ u. u < t) ts → contains ts t ≡ false
absent t [] h = refl
absent t (u ∷ ts) (h, hs) = ground (arith, absent t ts hs)

fresh_alone :
    (id : ClusterId) (t : Token) (es : List (ClusterId × Token))
    → All (λ e. e.1 < t) es
    → All (Other id t) es
fresh_alone id t [] h = tt
fresh_alone id t (e ∷ es) (h, hs) = (λ _ k. omega arith, fresh_alone id t es hs)

cancel_token-InFlight :
    (id key : ClusterId) (t : Token) (o : Option Token) (r : TaskRegistry)
    → token_of key r.tokens ≡ o
    → key ≢ id
    → InFlight id t r
    → InFlight id t (cancel_token o r)
unfolding cancel_token
cancel_token-InFlight id key t none r e n f = f
cancel_token-InFlight id key t (some u) r e n f =
    let differ : u ≢ t = token_of-Other id key t u r.tokens n f.alone e in
    record { held = f.held; live = ground (arith, differ, f.live); old = f.old; alone = f.alone }

-- The operations of other clusters' tasks leave a spawn in flight.
operate-InFlight :
    (id : ClusterId) (t : Token) (o : Operation) (r : TaskRegistry)
    → about o ≢ id
    → InFlight id t r
    → InFlight id t (operate o r)
unfolding register cancel unregister
operate-InFlight id t (registers key) r n f =
    let later = token_of-without_id id key r.tokens n in
    record {
      held = ground (arith, n, later, f.held);
      live = f.live;
      old = omega (arith, f.old);
      alone = (λ _ k. omega (arith, f.old), All-without_id (Other id t) key r.tokens f.alone);
    }
operate-InFlight id t (cancels key) r n f = cancel_token-InFlight id key t _ r refl n f
operate-InFlight id t (unregisters key) r n f = record {
  held = token_of-without_id id key r.tokens n ∙ f.held;
  live = f.live;
  old = f.old;
  alone = All-without_id (Other id t) key r.tokens f.alone;
}

operate_all-InFlight :
    (id : ClusterId) (t : Token) (os : List Operation) (r : TaskRegistry)
    → All (λ o. about o ≢ id) os
    → InFlight id t r
    → InFlight id t (operate_all os r)
operate_all-InFlight id t [] r n f = f
operate_all-InFlight id t (o ∷ os) r (n, ns) f =
    operate_all-InFlight id t os (operate o r) ns (operate-InFlight id t o r n f)

register-InFlight :
    (id : ClusterId) (r : TaskRegistry)
    → IsRegistry r
    → InFlight id (register id r).0 (register id r).1
unfolding register
register-InFlight id r (tokens, cancelled) = record {
  held = ground arith;
  live = absent r.fresh r.cancelled cancelled;
  old = omega arith;
  alone = (
    λ n k. n refl,
    All-without_id (Other id r.fresh) id r.tokens (fresh_alone id r.fresh r.tokens tokens),
  );
}

-- Whatever the tasks of other clusters do to the registry once a spawn has registered: its token is
-- not cancelled by that; a cancellation of its own cluster then cancels it; and one that comes after
-- the spawn was unregistered does not. The registry starts with tokens older than the next one.
pub cancel_only_own :
    (id : ClusterId) (r : TaskRegistry) (os : List Operation)
    → IsRegistry r
    → All (λ o. about o ≢ id) os
    → (is_cancelled (register id r).0 (operate_all os (register id r).1) ≡ false)
      × (is_cancelled (register id r).0 (cancel id (operate_all os (register id r).1)) ≡ true)
      × (is_cancelled
            (register id r).0
            (cancel id (unregister id (operate_all os (register id r).1)))
          ≡ false)
unfolding cancel unregister cancel_token
cancel_only_own id r os h others =
    let f =
      operate_all-InFlight id (register id r).0 os (register id r).1 others
        (register-InFlight id r h) in
    let now = operate_all os (register id r).1 in
    (f.live, rw f.held (ground arith), rw (token_of-gone id now.tokens) f.live)
