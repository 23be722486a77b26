-- ===== src/Select/Collect.antt =====
-- What ext_select waits for, and how it fails (socketapi/sctpsocketwrapper.cc: collectSCTP_FDs,
-- collectFDs, ext_select).
use socketapi.Prelude.{ℕ, ◌≡◌, ◌⊎◌, true, if◌then◌else◌}
use socketapi.Strings.Decimal.{ℤ, pos, negsuc}
use socketapi.Descriptors.{World, errno_result, failed}
use socketapi.Select.{Sets, Events, SelectData, Woken, report}

-- The results of the calls that set errno.
abbrev pub ZeroOrFailed : ℤ → Type 0
ZeroOrFailed r = (r ≡ pos 0) ⊎ (r ≡ negsuc 0)

abbrev pub OneResult : ℤ → Type 0
OneResult r = ((m : ℕ) × (r ≡ pos m)) ⊎ (r ≡ negsuc 0)

abbrev ZeroOrClosed : ℤ → Type 0
ZeroOrClosed r = (r ≡ pos 0) ⊎ ((m : ℕ) × (r ≡ negsuc m))

-- The end of ext_select for what is returned in front of errno.
abbrev end_of : ℤ → ℕ → World → World × ℤ
end_of result changes v = errno_result v (if failed result then result else pos changes)

-- What ext_select returns while the master runs.
abbrev pub RunningErrno : Woken → SelectData → Sets → World × Sets × ℤ → Type 0
RunningErrno e c s r = ((r.2 ≡ negsuc 0) × (r.0.errno ≡ 1)) ⊎ (r.2 ≡ pos (report e c s).1)

-- The mask of a descriptor that is in all three sets.
abbrev pub AsksAll : Events → Type 0
AsksAll e = (e.poll_in ≡ true) × (e.poll_out ≡ true) × (e.poll_err ≡ true)
