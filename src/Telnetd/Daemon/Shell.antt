-- ===== src/Telnetd/Daemon/Shell.antt =====
-- What `spawned_shell` of telnetd/telnetd.c opens, redirects, closes and frees.
use rtems_ssrl_apps.Prelude.{
  ℕ, ◌+◌, Bool, true, false, not, ◌&&◌, ◌||◌, Option, none, some, List, [], ◌∷◌, ◌++◌, map, ◌≡◌,
  refl, ap, ◌∙◌, inl, inr, arith, ◌==◌, if◌then◌else◌, Bool-cases,
}
use rtems_ssrl_apps.Prelude.Int.{is_nonzero}
use rtems_ssrl_apps.Telnetd.Passwd
use rtems_ssrl_apps.Telnetd.Passwd.{World, check_passwd}
use rtems_ssrl_apps.Telnetd.Daemon.{
  Event, log_released, free_args, shell, fopen, fclose, redirect, passwd, guarded_shell,
  spawned_shell,
}

-- A task that runs a shell: how many streams are open, whether stdio is redirected to them, and
-- whether the arguments are still held.
pub record Task : Type 0 where
  pub streams : ℕ
  pub redirected : Bool
  pub holds_args : Bool

-- What a step of such a task may do: streams are closed last in, first out, and not while stdio stands
-- on them, the password is asked and the shell run only with stdio on three streams, and the
-- arguments are freed once, when all is closed.
abbrev pub permitted : Event → Task → Option Task
permitted (fopen _ opened) t =
    if t.redirected
    then none
    else some (record t { streams = if opened then t.streams + 1 else t.streams })
permitted (fclose n) t =
    if t.redirected || not (t.streams == n + 1) then none else some (record t { streams = n })
permitted (redirect b) t =
    if b
    then (if t.streams == 3 && not t.redirected
        then some (record t { redirected = true })
        else none)
    else if t.redirected
    then some (record t { redirected = false })
    else none
permitted (shell _) t = if t.redirected then some t else none
permitted (passwd _) t = if t.redirected then some t else none
permitted free_args t =
    if t.holds_args && t.streams == 0 && not t.redirected
    then some (record t { holds_args = false })
    else none
permitted (log_released _ _) t = some t
permitted _ t = none

abbrev permit : Event → Option Task → Option Task
permit e none = none
permit e (some t) = permitted e t

abbrev pub follow : List Event → Option Task → Option Task
follow [] o = o
follow (e ∷ es) o = follow es (permit e o)

abbrev pub fresh : Option Task
fresh = some (record { streams = 0; redirected = false; holds_args = true })

abbrev pub finished : Option Task
finished = some (record { streams = 0; redirected = false; holds_args = false })

abbrev running : Option Task
running = some (record { streams = 3; redirected = true; holds_args = true })

follow-append :
    (xs ys : List Event) (o : Option Task) → follow (xs ++ ys) o ≡ follow ys (follow xs o)
follow-append [] ys o = refl
follow-append (x ∷ xs) ys o = follow-append xs ys (permit x o)

follow_between :
    (xs ys zs : List Event)
    → follow xs running ≡ running
    → follow (xs ++ ys ++ zs) running ≡ follow zs (follow ys running)
follow_between xs ys zs h =
    follow-append (xs ++ ys) zs running
    ∙ ap (follow zs) (follow-append xs ys running ∙ ap (follow ys) h)

-- The password's events change nothing of the task.
follow-passwd : (ps : List Passwd.Event) → follow (map passwd ps) running ≡ running
follow-passwd [] = refl
follow-passwd (p ∷ ps) = follow-passwd ps

abbrev is_shell : Event → Bool
is_shell (shell _) = true
is_shell _ = false

abbrev pub runs_shell : List Event → Bool
runs_shell [] = false
runs_shell (e ∷ es) = is_shell e || runs_shell es

or_assoc : (a b c : Bool) → (a || (b || c)) ≡ ((a || b) || c)
or_assoc a b c = ground arith

runs_shell-append : (xs ys : List Event) → runs_shell (xs ++ ys) ≡ runs_shell xs || runs_shell ys
runs_shell-append [] ys = refl
runs_shell-append (x ∷ xs) ys =
    rw (runs_shell-append xs ys) (or_assoc (is_shell x) (runs_shell xs) (runs_shell ys))

runs_shell-passwd : (ps : List Passwd.Event) → runs_shell (map passwd ps) ≡ false
runs_shell-passwd [] = refl
runs_shell-passwd (p ∷ ps) = runs_shell-passwd ps

module _ (crypt : List ℕ → List ℕ → List ℕ) where
  follow-guarded :
      (w : World) (name : List ℕ) → follow (guarded_shell crypt w name) running ≡ running
  unfolding guarded_shell
  follow-guarded w name =
      let ps = (check_passwd crypt w).1 in
      elim (Bool-cases (is_nonzero (check_passwd crypt w).0)) [
        | inl e ↦ rw (e, follow-append (map passwd ps) [] running, follow-passwd ps) refl
        | inr e ↦
            rw (e, follow-append (map passwd ps) (shell name ∷ []) running, follow-passwd ps) refl
      ]

  -- Whatever fails, the task takes permitted steps only, and ends with its streams closed, stdio as it
  -- was and its arguments freed.
  pub spawned_shell-IsOrderly :
      (env : Bool) (opens : ℕ → Bool) (w : World) (name peer : List ℕ)
      → follow (spawned_shell crypt env opens w name peer) fresh ≡ finished
  unfolding spawned_shell
  spawned_shell-IsOrderly false opens w name peer = refl
  spawned_shell-IsOrderly true opens w name peer = elim (Bool-cases (opens 0)) [
    | inr e0 ↦ rw e0 refl
    | inl e0 ↦ elim (Bool-cases (opens 1)) [
      | inr e1 ↦ rw (e0, e1) (rw e0 refl)
      | inl e1 ↦ elim (Bool-cases (opens 2)) [
        | inr e2 ↦ rw (e0, e1, e2) (rw (e0, e1) refl)
        | inl e2 ↦
            rw (e0, e1, e2)
              (rw (e0, e1, e2)
                (follow_between (guarded_shell crypt w name) (redirect false ∷ []) _
                  (follow-guarded w name)))
      ]
    ]
  ]

  runs_shell-guarded :
      (w : World) (name : List ℕ)
      → runs_shell (guarded_shell crypt w name) ≡ not (is_nonzero (check_passwd crypt w).0)
  unfolding guarded_shell
  runs_shell-guarded w name =
      let ps = (check_passwd crypt w).1 in
      elim (Bool-cases (is_nonzero (check_passwd crypt w).0)) [
        | inl e ↦ rw (e, runs_shell-append (map passwd ps) [], runs_shell-passwd ps) refl
        | inr e ↦
            rw (e, runs_shell-append (map passwd ps) (shell name ∷ []), runs_shell-passwd ps) refl
      ]

  runs_shell-between :
      (w : World) (name : List ℕ) (es : List Event)
      → runs_shell es ≡ false
      → runs_shell (guarded_shell crypt w name ++ redirect false ∷ [] ++ es)
        ≡ not (is_nonzero (check_passwd crypt w).0)
  runs_shell-between w name es h =
      let g = guarded_shell crypt w name in
      rw
        (
          runs_shell-append (g ++ redirect false ∷ []) es,
          runs_shell-append g (redirect false ∷ []),
          runs_shell-guarded w name,
          h,
        )
        (ground arith)

  -- The shell runs exactly if the private environment is there, the device opens three times and the
  -- password check returns 0.
  pub spawned_shell-Runs :
      (env : Bool) (opens : ℕ → Bool) (w : World) (name peer : List ℕ)
      → runs_shell (spawned_shell crypt env opens w name peer)
        ≡ (env && (opens 0 && (opens 1 && (opens 2 && not (is_nonzero (check_passwd crypt w).0)))))
  unfolding spawned_shell
  spawned_shell-Runs false opens w name peer = refl
  spawned_shell-Runs true opens w name peer = elim (Bool-cases (opens 0)) [
    | inr e0 ↦ rw e0 refl
    | inl e0 ↦ elim (Bool-cases (opens 1)) [
      | inr e1 ↦ rw (e0, e1) (rw e0 refl)
      | inl e1 ↦ elim (Bool-cases (opens 2)) [
        | inr e2 ↦ rw (e0, e1, e2) (rw (e0, e1) refl)
        | inl e2 ↦ rw (e0, e1, e2) (rw (e0, e1, e2) (runs_shell-between w name _ refl))
      ]
    ]
  ]
