-- ===== src/Syscall/Tests.antt =====
-- Arguments at a small process.
use os_ca.Common.{◌≡◌, ◌↔◌, refl, none, some, ◌==◌, if◌then◌else◌, arith, Cells}
use os_ca.Syscall.{Caller, int_at, fetchint, find_nul, fetchstr, argint, argptr, argstr}
use os_ca.Syscall.Arguments.{PointsInside, StringInside, argptr_iff, argstr_iff}
use os_ca.Syscall.Words.{IsUser}

-- Argument 0 is the address 100 of the string `hi`, and argument 1 the address 198.
abbrev bytes : Cells
bytes a =
    if a == 154
    then 100
    else if a == 158
    then 198
    else if a == 100
    then b'h'
    else if a == 101
    then b'i'
    else 0

abbrev caller : Caller
caller = record { sz = 200; esp = 150; mem = bytes }

caller-IsUser : IsUser caller
caller-IsUser = record { top = omega arith; stack = omega arith; byte = λ a. ground arith }

argptr-fits : argptr 1 2 caller ≡ some 198
unfolding argptr argint fetchint int_at
argptr-fits = refl

argptr-too_long : argptr 1 3 caller ≡ none
unfolding argptr argint fetchint int_at
argptr-too_long = refl

argptr_iff_example : (argptr 1 2 caller ≡ some 198) ↔ PointsInside 1 2 caller 198
argptr_iff_example = argptr_iff 1 2 198 caller caller-IsUser (omega arith)

argstr_iff_example : (argstr 0 caller ≡ some (100, 2)) ↔ StringInside 0 caller 100 2
argstr_iff_example = argstr_iff 0 100 2 caller caller-IsUser

argstr-hi : argstr 0 caller ≡ some (100, 2)
unfolding argstr argint fetchint int_at fetchstr find_nul
argstr-hi = refl
