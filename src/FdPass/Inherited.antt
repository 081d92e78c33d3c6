-- ===== src/FdPass/Inherited.antt =====
-- src/fdpass.rs: what the relay inherits.
use iroh_proxy.Common.{
  ℕ, ◌<◌, ◌≡◌, ◌≢◌, refl, true, false, Option, none, some, [], ◌∷◌, ok, arith, subst, nat_eq,
  if◌then◌else◌, inl, inr, ℕ_Keyed, nat_eq_iff, ◌∙◌, if_cases,
}
use iroh_proxy.Common.Dict.{
  keys, lookup, insert, HasDistinctKeys, insert-HasDistinctKeys, lookup-insert, lookup-insert_cases,
  lookup-absent, lookup-insert_self,
}
use iroh_proxy.FdPass.{
  dev_null, for_ssh, for_child, Descriptor, Table, FdOs, unix_socketpair, null_stdio, pre_exec,
  exec,
}

pub lookup-exec :
    (fd : ℕ) (table : Table)
    → HasDistinctKeys table
    → lookup fd (exec table) ≡ elim (lookup fd table) [
      | none ↦ none
      | some descriptor ↦ if descriptor.close_on_exec then none else some descriptor
    ]
unfolding exec lookup keys
lookup-exec fd [] h = refl
lookup-exec fd ((n, d) ∷ table) (new, h) =
    ground (arith, lookup-exec fd table h, lookup-absent n table new, nat_eq_iff n fd)

-- Every descriptor of the end for ssh closes on exec.
abbrev Sealed : Table → Type 0
Sealed table =
    (fd : ℕ) (d : Descriptor) → lookup fd table ≡ some d → d.file ≡ for_ssh → d.close_on_exec ≡ true

insert-Sealed :
    (fd : ℕ) (d : Descriptor) (table : Table)
    → (d.file ≡ for_ssh → d.close_on_exec ≡ true)
    → Sealed table
    → Sealed (insert fd d table)
insert-Sealed fd d table closes h n e found is = elim (lookup-insert_cases fd n d e table found) [
  | inl (_, same) ↦ subst (λ f. f.file ≡ for_ssh → f.close_on_exec ≡ true) same closes is
  | inr (_, old) ↦ h n e old is
]

abbrev pub relay_end : Descriptor
relay_end = record { file = for_child; close_on_exec = false }

abbrev pub null_end : Descriptor
null_end = record { file = dev_null; close_on_exec = false }

abbrev pub passed : ℕ → Table → Table
passed child_raw table = if nat_eq child_raw 3 then table else insert 3 relay_end table

pub pre_exec_ok :
    (os : FdOs) (child_raw : ℕ) (table prepared : Table)
    → lookup child_raw table ≡ some (record { file = for_child; close_on_exec = true })
    → pre_exec os child_raw table ≡ ok prepared
    → prepared ≡ insert 3 relay_end (passed child_raw table)
unfolding pre_exec
pre_exec_ok os child_raw table prepared there done =
    ground (arith, lookup-insert 3 3 relay_end table, nat_eq_iff child_raw 3)

-- What the relay has: its end as descriptor 3, nothing on the standard streams, and no descriptor of
-- the end for ssh.
pub record Inherits (table : Table) : Type 0 where
  pub relayed : lookup 3 table ≡ some relay_end
  pub stdin : lookup 0 table ≡ some null_end
  pub stdout : lookup 1 table ≡ some null_end
  pub stderr : lookup 2 table ≡ some null_end
  pub unheld : (fd : ℕ) (d : Descriptor) → lookup fd table ≡ some d → d.file ≢ for_ssh

exec-Inherits :
    (table : Table)
    → HasDistinctKeys table
    → Sealed table
    → lookup 3 table ≡ some relay_end
    → lookup 0 table ≡ some null_end
    → lookup 1 table ≡ some null_end
    → lookup 2 table ≡ some null_end
    → Inherits (exec table)
exec-Inherits table distinct closes three zero_ one two = record {
  relayed = ground (arith, lookup-exec 3 table distinct);
  stdin = ground (arith, lookup-exec 0 table distinct);
  stdout = ground (arith, lookup-exec 1 table distinct);
  stderr = ground (arith, lookup-exec 2 table distinct);
  unheld = λ fd d found is. go fd d found is (lookup fd table) refl;
}
  where
    go :
        (fd : ℕ) (d : Descriptor)
        → lookup fd (exec table) ≡ some d
        → d.file ≡ for_ssh
        → (o : Option Descriptor) → lookup fd table ≡ o
        → ⊥
    go fd d found is none e = ground (arith, lookup-exec fd table distinct)
    go fd d found is (some held) e = ground (arith, lookup-exec fd table distinct, closes fd held e)

-- The table at the fork, with the standard streams redirected.
abbrev pub forked : ℕ → ℕ → Table → Table
forked ssh_raw child_raw table = null_stdio (unix_socketpair ssh_raw child_raw table)

miss :
    (new wanted : ℕ) (d : Descriptor) (table : Table)
    → new ≢ wanted
    → lookup wanted (insert new d table) ≡ lookup wanted table
miss new wanted d table apart =
    ground (arith, lookup-insert new wanted d table, nat_eq_iff new wanted)

module _ (ssh_raw child_raw : ℕ) (table : Table) where
  pub lookup-forked_child :
      2 < child_raw
      → lookup child_raw (forked ssh_raw child_raw table)
        ≡ some (record { file = for_child; close_on_exec = true })
  unfolding null_stdio unix_socketpair
  lookup-forked_child high =
      miss 2 child_raw null_end _ (λ e. omega (arith, e))
      ∙ miss 1 child_raw null_end _ (λ e. omega (arith, e))
      ∙ miss 0 child_raw null_end _ (λ e. omega (arith, e))
      ∙ lookup-insert_self child_raw _ _

  lookup-forked_null :
      (fd : ℕ) → fd < 3 → lookup fd (forked ssh_raw child_raw table) ≡ some null_end
  unfolding null_stdio
  lookup-forked_null fd low = ground (
    arith,
    lookup-insert 2 fd null_end
        (insert 1 null_end (insert 0 null_end (unix_socketpair ssh_raw child_raw table))),
    lookup-insert 1 fd null_end (insert 0 null_end (unix_socketpair ssh_raw child_raw table)),
    lookup-insert 0 fd null_end (unix_socketpair ssh_raw child_raw table),
  )

  forked-HasDistinctKeys : HasDistinctKeys table → HasDistinctKeys (forked ssh_raw child_raw table)
  unfolding null_stdio unix_socketpair
  forked-HasDistinctKeys h = insert-HasDistinctKeys 2 _ _ (
      insert-HasDistinctKeys 1 _ _ (
        insert-HasDistinctKeys 0 _ _
          (insert-HasDistinctKeys child_raw _ _ (insert-HasDistinctKeys ssh_raw _ _ h))))

  forked-Sealed : Sealed table → Sealed (forked ssh_raw child_raw table)
  unfolding null_stdio unix_socketpair
  forked-Sealed h =
      insert-Sealed 2 null_end _ (λ e. ground arith)
        (insert-Sealed 1 null_end _ (λ e. ground arith)
          (insert-Sealed 0 null_end _ (λ e. ground arith)
            (insert-Sealed child_raw (record { file = for_child; close_on_exec = true }) _
              (λ e. refl)
              (insert-Sealed ssh_raw (record { file = for_ssh; close_on_exec = true }) _ (λ e. refl)
                h))))

passed_cases :
    (P : Table → Type 0) (child_raw : ℕ) (table : Table)
    → P table
    → P (insert 3 relay_end table)
    → P (passed child_raw table)
passed_cases P child_raw table same other = if_cases P (nat_eq child_raw 3) (λ _. same) (λ _. other)

-- Numbers that the operating system gives to a new pair.
pub record IsPair (ssh_raw child_raw : ℕ) (table : Table) : Type 0 where
  pub high : 2 < child_raw
  pub distinct : HasDistinctKeys table
  pub unused : (fd : ℕ) (d : Descriptor) → lookup fd table ≡ some d → d.file ≢ for_ssh

pub relay_table-Inherits :
    (ssh_raw child_raw : ℕ) (table : Table)
    → IsPair ssh_raw child_raw table
    → Inherits (exec (insert 3 relay_end (passed child_raw (forked ssh_raw child_raw table))))
relay_table-Inherits ssh_raw child_raw table pair =
    let t = forked ssh_raw child_raw table in
    let distinct = forked-HasDistinctKeys ssh_raw child_raw table pair.distinct in
    let closes =
      forked-Sealed ssh_raw child_raw table (λ fd d found is. absurd (pair.unused fd d found is)) in
    exec-Inherits (insert 3 relay_end (passed child_raw t))
      (insert-HasDistinctKeys 3 relay_end _ (
        passed_cases HasDistinctKeys child_raw t distinct
          (insert-HasDistinctKeys 3 relay_end t distinct)))
      (insert-Sealed 3 relay_end _ (λ e. ground arith)
        (passed_cases Sealed child_raw t closes
          (insert-Sealed 3 relay_end t (λ e. ground arith) closes)))
      (lookup-insert_self 3 relay_end _) (null_at 0 (ground arith)) (null_at 1 (ground arith))
      (null_at 2 (ground arith))
  where
    null_at :
        (fd : ℕ)
        → fd < 3
        → lookup fd (insert 3 relay_end (passed child_raw (forked ssh_raw child_raw table)))
          ≡ some null_end
    null_at fd low =
        miss 3 fd relay_end _ (λ e. omega (arith, e))
        ∙ passed_cases (λ t. lookup fd t ≡ some null_end) child_raw (forked ssh_raw child_raw table)
            (lookup-forked_null ssh_raw child_raw table fd low)
            (miss 3 fd relay_end _ (λ e. omega (arith, e))
              ∙ lookup-forked_null ssh_raw child_raw table fd low)
