-- ===== src/Shell/Total.antt =====
-- The parser ends: each of its loops and calls leaves less text.
use os_ca.Common.{
  ℕ, zero, suc, ◌+◌, ◌≤◌, ◌<◌, ◌≡◌, ◌≢◌, true, not, List, [], ◌∷◌, length, leb, ◌==◌, if_cases,
  arith, subst,
}
use os_ca.Shell.{
  max_args, Cmd, backcmd, Parsed, parsed, panics, no_fuel, and_then, skip_space, gettoken, peek,
  redirs, all_redirs, exec_args, parseexec, parsepipe, backs, parseblock, parseline, no_leftovers,
  parsecmd,
}
use os_ca.Shell.Tokens.{skip_space-le, gettoken-le, gettoken-shorter_peek, gettoken-shorter_kind}

-- The parser did not run out of fuel, and left at most `n` bytes.
abbrev Within : {A : Type 0} → ℕ → Parsed A → Type 0
Within n (parsed a t) = length t ≤ n
Within n panics = Unit {0}
Within n no_fuel = ⊥

bind-Within :
    {A B : Type 0} (n k : ℕ) (m : Parsed A) (f : A → List ℕ → Parsed B)
    → Within n m
    → ((a : A) (t : List ℕ) → length t ≤ n → Within k (f a t))
    → Within k (and_then m f)
unfolding and_then
bind-Within n k (parsed a t) f le h = h a t le
bind-Within n k panics f le h = tt
bind-Within n k no_fuel f le h = elim le [ ]

Within-mono : {A : Type 0} (n k : ℕ) (m : Parsed A) → n ≤ k → Within n m → Within k m
Within-mono n k (parsed a t) le h = omega (arith, le, h)
Within-mono n k panics le h = tt
Within-mono n k no_fuel le h = h

redirs-Within : (m : ℕ) (text : List ℕ) → length text < m → Within (length text) (redirs m text)
unfolding redirs
redirs-Within zero text lt = absurd (omega arith)
redirs-Within (suc m) text lt =
    let sign = gettoken text in
    let name = gettoken sign.rest in
    if_cases (Within (length text)) (not (peek (b'<' ∷ b'>' ∷ []) text)) _ _
      (λ _. skip_space-le text)
      (λ e.
        let seen : peek (b'<' ∷ b'>' ∷ []) text ≡ true = ground arith in
        let shorter = gettoken-shorter_peek text (b'<' ∷ b'>' ∷ []) seen in
        let behind = gettoken-le sign.rest in
        if_cases (Within (length text)) (not (name.kind == b'a')) _ _ (λ _. tt)
          (λ _.
            bind-Within (length name.rest) (length text) (redirs m name.rest) _
              (redirs-Within m name.rest (omega (arith, shorter, behind)))
              (λ rs t le. omega (arith, le, shorter, behind))))

all_redirs-Within : (text : List ℕ) → Within (length text) (all_redirs text)
unfolding all_redirs
all_redirs-Within text = redirs-Within (suc (length text)) text (omega arith)

exec_args-Within :
    (m argc : ℕ) (text : List ℕ) → length text < m → Within (length text) (exec_args m argc text)
unfolding exec_args
exec_args-Within zero argc text lt = absurd (omega arith)
exec_args-Within (suc m) argc text lt =
    let t = gettoken text in
    if_cases (Within (length text)) (peek (b'|' ∷ b')' ∷ b'&' ∷ b';' ∷ []) text) _ _
      (λ _. skip_space-le text)
      (λ _.
        if_cases (Within (length text)) (t.kind == 0) _ _ (λ _. gettoken-le text)
          (λ e.
            if_cases (Within (length text)) (not (t.kind == b'a')) _ _ (λ _. tt)
              (λ _.
                if_cases (Within (length text)) (leb max_args (argc + 1)) _ _ (λ _. tt)
                  (λ _.
                    let shorter = gettoken-shorter_kind text e in
                    bind-Within (length t.rest) (length text) (all_redirs t.rest) _
                      (all_redirs-Within t.rest)
                      (λ rs behind le.
                        bind-Within (length behind) (length text) (exec_args m (argc + 1) behind) _
                          (exec_args-Within m (argc + 1) behind (omega (arith, le, shorter)))
                          (λ ws last le'. omega (arith, le, le', shorter)))))))

-- The parser ends on texts of fewer than `n` bytes.
abbrev Covers : ℕ → (List ℕ → Parsed Cmd) → Type 0
Covers n p = (text : List ℕ) → length text < n → Within (length text) (p text)

module _ (n : ℕ) (line : List ℕ → Parsed Cmd) (h : Covers n line) where
  parseblock-Covers : Covers (suc n) (parseblock line)
  unfolding parseblock
  parseblock-Covers text lt =
      let Fits = Within {A = Cmd} (length text) in
      let inner = (gettoken text).rest in
      if_cases Fits (not (peek (b'(' ∷ []) text)) _ _ (λ _. tt)
        (λ e.
          let seen : peek (b'(' ∷ []) text ≡ true = ground arith in
          let shorter = gettoken-shorter_peek text (b'(' ∷ []) seen in
          bind-Within (length inner) (length text) (line inner) _ (h inner (omega (arith, shorter)))
            (λ c t le.
              if_cases Fits (not (peek (b')' ∷ []) t)) _ _ (λ _. tt)
                (λ _.
                  bind-Within (length (gettoken t).rest) (length text)
                    (all_redirs (gettoken t).rest) _ (all_redirs-Within (gettoken t).rest)
                    (λ rs rest le'. omega (arith, le, le', shorter, gettoken-le t)))))

  parseexec-Covers : Covers n (parseexec line)
  unfolding parseexec
  parseexec-Covers text lt =
      let Fits = Within {A = Cmd} (length text) in
      let start = skip_space text in
      let le = skip_space-le text in
      if_cases Fits (peek (b'(' ∷ []) text) _ _
        (λ _.
          Within-mono (length start) (length text) (line start) le (h start (omega (arith, le))))
        (λ _.
          bind-Within (length start) (length text) (all_redirs start) _ (all_redirs-Within start)
            (λ rs t le'.
              bind-Within (length t) (length text) (exec_args (suc (length t)) 0 t) _
                (exec_args-Within (suc (length t)) 0 t (omega arith))
                (λ ws rest le''. omega (arith, le, le', le''))))

  parsepipe-Covers :
      (m : ℕ) (text : List ℕ)
      → length text < m
      → length text < n
      → Within (length text) (parsepipe m line text)
  unfolding parsepipe
  parsepipe-Covers zero text lm ln = absurd (omega arith)
  parsepipe-Covers (suc m) text lm ln =
      bind-Within (length text) (length text) (parseexec line text) _ (parseexec-Covers text ln)
        (λ c t le.
          let right = (gettoken t).rest in
          if_cases (Within {A = Cmd} (length text)) (peek (b'|' ∷ []) t) _ _
            (λ e.
              let shorter = gettoken-shorter_peek t (b'|' ∷ []) e in
              bind-Within (length right) (length text) (parsepipe m line right) _
                (parsepipe-Covers m right (omega (arith, shorter, le)) (omega (arith, shorter, le)))
                (λ r rest le'. omega (arith, le, le', shorter)))
            (λ _. omega (arith, le, skip_space-le t)))

backs-Within :
    (m : ℕ) (c : Cmd) (text : List ℕ) → length text < m → Within (length text) (backs m c text)
unfolding backs
backs-Within zero c text lt = absurd (omega arith)
backs-Within (suc m) c text lt =
    let rest = (gettoken text).rest in
    if_cases (Within {A = Cmd} (length text)) (peek (b'&' ∷ []) text) _ _
      (λ e.
        let shorter = gettoken-shorter_peek text (b'&' ∷ []) e in
        Within-mono (length rest) (length text) (backs m (backcmd c) rest) (omega (arith, shorter))
          (backs-Within m (backcmd c) rest (omega (arith, shorter))))
      (λ _. skip_space-le text)

parseline-Covers : (n : ℕ) → Covers n (parseline n)
unfolding parseline
parseline-Covers zero text lt = absurd (omega arith)
parseline-Covers (suc n) text lt =
    let Fits = Within {A = Cmd} (length text) in
    bind-Within (length text) (length text)
      (parsepipe (suc (length text)) (parseblock (parseline n)) text) _
      (parsepipe-Covers (suc n) (parseblock (parseline n))
        (parseblock-Covers n (parseline n) (parseline-Covers n)) (suc (length text)) text
        (omega arith) lt)
      (λ c t le.
        bind-Within (length t) (length text) (backs (suc (length t)) c t) _
          (backs-Within (suc (length t)) c t (omega arith))
          (λ d u le'.
            let right = (gettoken u).rest in
            if_cases Fits (peek (b';' ∷ []) u) _ _
              (λ e.
                let shorter = gettoken-shorter_peek u (b';' ∷ []) e in
                bind-Within (length right) (length text) (parseline n right) _
                  (parseline-Covers n right (omega (arith, shorter, le, le')))
                  (λ r rest le''. omega (arith, le, le', le'', shorter)))
              (λ _. omega (arith, le, le', skip_space-le u))))

-- The parser ends on every line: its fuel, the length of the line and one more, is enough for a command or
-- a panic.
pub parsecmd-ends : (text : List ℕ) → parsecmd text ≢ no_fuel
unfolding parsecmd no_leftovers
parsecmd-ends text e = subst (Within 0) e (
    bind-Within (length text) 0 (parseline (suc (length text)) text) _
      (parseline-Covers (suc (length text)) text (omega arith))
      (λ c t le. leftovers c (skip_space t)))
  where
    leftovers : (c : Cmd) (t : List ℕ) → Within 0 (no_leftovers c t)
    leftovers c [] = omega arith
    leftovers c (b ∷ t) = tt
