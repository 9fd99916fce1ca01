-- ===== src/Pg/Transaction/Atomic.antt =====
-- sql_transaction_async.rs: about what is committed.
use doka_one.Prelude.{
  ◌⊎◌, inl, inr, true, false, if◌then◌else◌, Option, none, some, ℕ, ◌≡◌, refl, sym, subst, ◌∙◌,
  Bool, Outcome, Failure,
}
use doka_one.Prelude.Effects.{Run, ◌>>=◌, Ends, returned, failed, Ends-bind, Ends-mono, Ends-if}
use doka_one.Pg.Transaction.{
  Database, request, from_pool, begin, execute, execute_some, commit, change, constrained, insert,
  transact,
}

-- A failure that leaves what is committed, after requests that left it too.
pub later :
    {S E A : Type 0} {P : A → Database S → Type 0} {before now : S} {r : Outcome E A × Database S}
    → now ≡ before
    → Ends P (λ u. u.committed ≡ now) r
    → Ends P (λ u. u.committed ≡ before) r
later h (returned p) = returned p
later h (failed q) = failed (q ∙ h)

module _ {S : Type 0} (fails : ℕ → Bool) where
  request-Ends :
      {A : Type 0} (f : S → S → A × (S × S)) (d : Database S)
      → Ends
          (λ a e.
            (a ≡ (f d.committed d.working).0)
            × (e.committed ≡ (f d.committed d.working).1.0)
            × (e.working ≡ (f d.committed d.working).1.1))
          (λ e. e.committed ≡ d.committed)
          (request fails f d)
  unfolding request
  request-Ends f d = Ends-if (fails d.calls) (λ h. failed refl) (λ h. returned (refl, refl, refl))

  -- The three requests that write nothing, and the one that does.
  pub from_pool-Ends :
      (d : Database S)
      → Ends (λ a e. e.committed ≡ d.committed) (λ e. e.committed ≡ d.committed) (from_pool fails d)
  unfolding from_pool
  from_pool-Ends d = Ends-mono (request-Ends (λ c w. (tt, (c, w))) d) (λ a e h. h.1) (λ e h. h)

  pub begin-Ends :
      (d : Database S)
      → Ends
          (λ a e. (e.committed ≡ d.committed) × (e.working ≡ d.committed))
          (λ e. e.committed ≡ d.committed)
          (begin fails d)
  unfolding begin
  begin-Ends d = Ends-mono (request-Ends (λ c w. (tt, (c, c))) d) (λ a e h. (h.1, h.2)) (λ e h. h)

  pub execute-Ends :
      {A : Type 0} (f : S → A × S) (d : Database S)
      → Ends
          (λ a e.
            (a ≡ (f d.working).0) × (e.committed ≡ d.committed) × (e.working ≡ (f d.working).1))
          (λ e. e.committed ≡ d.committed)
          (execute fails f d)
  unfolding execute
  execute-Ends f d = request-Ends (λ c w. ((f w).0, (c, (f w).1))) d

  commit-Ends :
      (d : Database S)
      → Ends
          (λ a e. e.committed ≡ d.working)
          (λ e. (e.committed ≡ d.committed) ⊎ (e.committed ≡ d.working))
          (commit fails d)
  unfolding commit
  commit-Ends d =
      Ends-if (fails d.calls) (λ h. failed (either (d.lands d.calls))) (λ h. returned refl)
    where
      either :
          (b : Bool)
          → ((if b then d.working else d.committed) ≡ d.committed)
            ⊎ ((if b then d.working else d.committed) ≡ d.working)
      either true = inr refl
      either false = inl refl

  -- What a body of statements does to the contents that its transaction sees.
  abbrev pub Changes : {A : Type 0} → (S → A → S → Type 0) → Run (Database S) Failure A → Type 0
  Changes R body =
      (d : Database S)
      → Ends (λ a e. (e.committed ≡ d.committed) × R d.working a e.working)
          (λ e. e.committed ≡ d.committed) (body d)

  pub execute-Changes :
      {A : Type 0} (f : S → A × S)
      → Changes (λ s a t. (a ≡ (f s).0) × (t ≡ (f s).1)) (execute fails f)
  execute-Changes f d = Ends-mono (execute-Ends f d) (λ a e h. (h.1, (h.0, h.2))) (λ e h. h)

  pub change-Changes : (f : S → S) → Changes (λ s a t. t ≡ f s) (change fails f)
  unfolding change
  change-Changes f d = Ends-mono (execute-Ends (λ s. (tt, f s)) d) (λ a e h. (h.1, h.2)) (λ e h. h)

  pub Changes-bind :
      {A B : Type 0} {R : S → A → S → Type 0} {T : S → B → S → Type 0}
      {body : Run (Database S) Failure A} {k : A → Run (Database S) Failure B}
      (U : S → B → S → Type 0)
      → Changes R body
      → ((a : A) → Changes T (k a))
      → ((s t u : S) (a : A) (b : B) → R s a t → T t b u → U s b u)
      → Changes U (body >>= k)
  Changes-bind U h g join d = Ends-bind (h d) λ a e p.
      Ends-mono (later (p.0) (g a e)) (λ b u q. (q.0 ∙ p.0, join _ _ _ a b p.1 q.1)) (λ u q. q)

  pub insert-Changes :
      (f : S → S) (currval : S → ℕ) → Changes (λ s a t. t ≡ f s) (insert fails f currval)
  unfolding insert
  insert-Changes f currval =
      Changes-bind (λ s a t. t ≡ f s) (change-Changes f)
        (λ _. execute-Changes (λ s. (currval s, s))) (λ s t u _ _ e h. h.1 ∙ e)

  pub constrained-Changes :
      (f : S → Option S) (K : S → S → Type 0)
      → ((s t : S) → f s ≡ some t → K s t)
      → Changes (λ s a t. K s t) (constrained fails f)
  unfolding constrained
  constrained-Changes f K h d = go (f d.working) refl
    where
      go :
          (o : Option S)
          → f d.working ≡ o
          → Ends
              (λ a e. (e.committed ≡ d.committed) × K d.working e.working)
              (λ e. e.committed ≡ d.committed)
              (execute_some fails o d)
      go none e = failed refl
      go (some s) e =
          Ends-mono (execute-Ends (λ _. (tt, s)) d)
            (λ a w q. (q.1, subst (K d.working) (sym q.2) (h d.working s e))) (λ w q. q)

  -- Nothing of a transaction took effect, or all of it did.
  abbrev pub WholeOrNothing : {A : Type 0} → (S → A → S → Type 0) → Database S → Database S → Type 0
  WholeOrNothing {A} R d e = (e.committed ≡ d.committed) ⊎ ((a : A) × R d.committed a e.committed)

  -- A transaction whose statements change what it sees by `R` changes by `R` what is committed. Where
  -- it reports a failure, nothing or all of it took effect.
  pub transact-Ends :
      {A : Type 0} (R : S → A → S → Type 0) {body : Run (Database S) Failure A}
      → Changes R body
      → (d : Database S)
      → Ends (λ a e. R d.committed a e.committed) (WholeOrNothing R d) (transact fails body d)
  unfolding transact
  transact-Ends R changes d =
      Ends-bind (Ends-mono (from_pool-Ends d) (λ _ e h. h) (λ e h. inl h)) λ _ d1 h1.
        Ends-bind (Ends-mono (begin-Ends d1) (λ _ e h. h) (λ e h. inl (h ∙ h1))) λ _ d2 h2.
          Ends-bind (Ends-mono (changes d2) (λ a e h. h) (λ e h. inl (h ∙ h2.0 ∙ h1))) λ a d3 h3.
            let whole = λ (s : S) (h : s ≡ d3.working).
              subst (λ s. R d.committed a s) (sym h)
                (subst (λ s. R s a d3.working) (h2.1 ∙ h1) h3.1) in
            Ends-bind
              (Ends-mono (commit-Ends d3) (λ _ e h. h)
                (λ e h. elim h [
                  | inl same ↦ inl (same ∙ h3.0 ∙ h2.0 ∙ h1)
                  | inr landed ↦ inr (a, whole e.committed landed)
                ]))
              λ _ d4 h4. returned (whole d4.committed h4)
