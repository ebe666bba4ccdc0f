-- ===== src/Ssm/Audit/Query.antt =====
-- What the callback of ssm_audit_log_query of src/ssm.cc is called with.
use mathlib.Core.Path.{subst⁻¹}
use vaultine.Prelude.{
  ℕ, zero, suc, ◌≤◌, ◌≡◌, ◌∙◌, ap, Bytes, Bool, true, leb, leb→le, Bool-cases, Option, none, some,
  inl, inr, eqb→eq, List, [], ◌∷◌, ◌++◌, All, All-map, All-intro, Occurs, keep, keep-Occurs,
  length-take, take, drop, length, arith,
}
use vaultine.World.{Env, err_internal, AuditEntry, Vault}
use vaultine.Exec.Runs.{Reads, Reads-map, Reads-chain, Reads-call, Reads-gets, Reads-or_return, ◌⨾◌}
use vaultine.Db.Sql.{place, order_by}
use vaultine.Db.AuditLog.{admits, selected, query_audit, audit_log_query}
use vaultine.Db.Runs.{fetch_rows-Reads}
use vaultine.Ssm.Audit.{ℤ, pos, negsuc, effective_limit, effective_offset, ssm_audit_log_query}

abbrev newer : AuditEntry → AuditEntry → Bool
newer a b = leb b.id a.id

-- The newest entries, by their ids, come first.
abbrev pub NewestFirst : List AuditEntry → Type 0
NewestFirst [] = Unit
NewestFirst (a ∷ rest) = All (λ (b : AuditEntry). b.id ≤ a.id) rest × NewestFirst rest

module _ {A : Type 0} (P : A → Type 0) where
  All-take : (n : ℕ) (xs : List A) → All P xs → All P (take n xs)
  All-take zero xs h = tt
  All-take (suc n) [] h = tt
  All-take (suc n) (x ∷ xs) h = (h.0, All-take n xs h.1)

  All-drop : (n : ℕ) (xs : List A) → All P xs → All P (drop n xs)
  All-drop zero xs h = h
  All-drop (suc n) [] h = tt
  All-drop (suc n) (x ∷ xs) h = All-drop n xs h.1

  All-front : (xs ys : List A) → All P (xs ++ ys) → All P xs
  All-front [] ys h = tt
  All-front (x ∷ xs) ys h = (h.0, All-front xs ys h.1)

  All-place :
      (before : A → A → Bool) (a : A) (xs : List A) → P a → All P xs → All P (place before a xs)
  unfolding place
  All-place before a [] p h = (p, tt)
  All-place before a (b ∷ xs) p h = elim (Bool-cases (before a b)) [
    | inl q ↦ rw q (p, h)
    | inr q ↦ rw q (h.0, All-place before a xs p h.1)
  ]

  All-order_by : (before : A → A → Bool) (xs : List A) → All P xs → All P (order_by before xs)
  unfolding order_by
  All-order_by before [] h = tt
  All-order_by before (a ∷ xs) h = All-place before a _ h.0 (All-order_by before xs h.1)

length-front : {A : Type 0} (xs ys : List A) → length xs ≤ length (xs ++ ys)
length-front [] ys = omega arith
length-front (x ∷ xs) ys = omega (arith, length-front xs ys)

place-NewestFirst :
    (a : AuditEntry) (xs : List AuditEntry) → NewestFirst xs → NewestFirst (place newer a xs)
unfolding place
place-NewestFirst a [] h = (tt, tt)
place-NewestFirst a (b ∷ xs) h = elim (Bool-cases (newer a b)) [
  | inl q ↦ rw q (
    (
      leb→le b.id a.id q,
      All-map (λ (c : AuditEntry). c.id ≤ b.id) (λ (c : AuditEntry). c.id ≤ a.id) xs
          (λ c k. omega (arith, k, leb→le b.id a.id q)) h.0,
    ),
    h,
  )
  | inr q ↦ rw q (
    All-place (λ (c : AuditEntry). c.id ≤ b.id) newer a xs (ground (arith, q)) h.0,
    place-NewestFirst a xs h.1,
  )
]

order_by-NewestFirst : (xs : List AuditEntry) → NewestFirst (order_by newer xs)
unfolding order_by
order_by-NewestFirst [] = tt
order_by-NewestFirst (a ∷ xs) = place-NewestFirst a _ (order_by-NewestFirst xs)

take-NewestFirst : (n : ℕ) (xs : List AuditEntry) → NewestFirst xs → NewestFirst (take n xs)
take-NewestFirst zero xs h = tt
take-NewestFirst (suc n) [] h = tt
take-NewestFirst (suc n) (x ∷ xs) h = (All-take _ n xs h.0, take-NewestFirst n xs h.1)

drop-NewestFirst : (n : ℕ) (xs : List AuditEntry) → NewestFirst xs → NewestFirst (drop n xs)
drop-NewestFirst zero xs h = h
drop-NewestFirst (suc n) [] h = tt
drop-NewestFirst (suc n) (x ∷ xs) h = drop-NewestFirst n xs h.1

front-NewestFirst : (xs ys : List AuditEntry) → NewestFirst (xs ++ ys) → NewestFirst xs
front-NewestFirst [] ys h = tt
front-NewestFirst (x ∷ xs) ys h = (All-front _ xs ys h.0, front-NewestFirst xs ys h.1)

-- What a caller of the query asks for: no filter, or the text of the column.
abbrev pub Meets : Option Bytes → Bytes → Type 0
Meets none column = Unit
Meets (some text) column = column ≡ text

-- At most `limit` where that is above zero, and at most 100 where it is not.
abbrev pub Within : ℤ → ℕ → Type 0
Within (pos zero) n = n ≤ 100
Within (pos (suc limit)) n = n ≤ suc limit
Within (negsuc _) n = n ≤ 100

admits-Meets : (o : Option Bytes) (column : Bytes) → admits o column ≡ true → Meets o column
admits-Meets none column h = tt
admits-Meets (some x) column h = eqb→eq column x h

effective_limit-Within : (limit : ℤ) (n : ℕ) → n ≤ effective_limit limit → Within limit n
effective_limit-Within (pos zero) n h = h
effective_limit-Within (pos (suc k)) n h = h
effective_limit-Within (negsuc k) n h = h

module _ (username operation result : Option Bytes) where
  -- An entry that all three filters let pass.
  pub record Asked (a : AuditEntry) : Type 0 where
    pub user : Meets username a.username
    pub done : Meets operation a.operation
    pub ended : Meets result a.result

  selected-Asked : (a : AuditEntry) → selected username operation result a ≡ true → Asked a
  selected-Asked a h = record {
    user = admits-Meets username a.username (ground (arith, h));
    done = admits-Meets operation a.operation (ground (arith, h));
    ended = admits-Meets result a.result (ground (arith, h));
  }

module _ {e : Env} {v : Vault} where
  -- In any vault: a query of the audit log that returns SSM_OK has called back with entries of the
  -- log, each with the user name, the operation and the result that were asked for, where they were,
  -- the newest first, and with no more than the limit, or 100 if the limit is not above zero; and it
  -- changes nothing, whatever it returns.
  pub ssm_audit_log_query-Reads :
      (username operation result : Option Bytes) (limit offset : ℤ)
      → Reads e v (ssm_audit_log_query username operation result limit offset) (λ rows.
        Within limit (length rows)
        × NewestFirst rows
        × All (λ a. Occurs a v.tables.audit × Asked username operation result a) rows)
  unfolding ssm_audit_log_query audit_log_query query_audit
  ssm_audit_log_query-Reads username operation result limit offset = Reads-or_return err_internal (
      Reads-call
      ⨾ Reads-chain (Reads-gets _) λ rows p. Reads-map (fetch_rows-Reads rows) (λ out f. (
        effective_limit-Within limit (length out) (
            omega (
              arith,
              length-front out f.unread,
              ap length (f.parts ∙ p),
              length-take (effective_limit limit) later,
            )),
        front-NewestFirst out f.unread (
            subst⁻¹ NewestFirst (f.parts ∙ p) (
              take-NewestFirst (effective_limit limit) later
                (drop-NewestFirst (effective_offset offset) sorted (order_by-NewestFirst met)))),
        All-front Met out f.unread (
            subst⁻¹ (All Met) (f.parts ∙ p) (
              All-take Met (effective_limit limit) later (
                All-drop Met (effective_offset offset) sorted
                  (All-order_by Met newer met all_met)))),
      )))
    where
      Met : AuditEntry → Type 0
      Met a = Occurs a v.tables.audit × Asked username operation result a

      met : List AuditEntry
      met = keep (selected username operation result) v.tables.audit

      sorted : List AuditEntry
      sorted = order_by newer met

      later : List AuditEntry
      later = drop (effective_offset offset) sorted

      all_met : All Met met
      all_met = All-intro Met met (λ a o.
          (let h = keep-Occurs (selected username operation result) v.tables.audit a o in
            (h.1, selected-Asked username operation result a h.0)))
