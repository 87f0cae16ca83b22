-- ===== src/Errno/Tests.antt =====
-- Two results of a system call.
use kados_ng.Base.{◌≡◌, refl}
use kados_ng.Errno.{Result, ISize, err, to_isize, einval, code}
use kados_ng.Errno.Codes.{to_isize-injective}

minus_einval : to_isize (err einval) ≡ 0xffff_ffff_ffff_ffea
unfolding code
minus_einval = refl

to_isize-injective_example : ◌≡◌ {A = Result ISize} (err einval) (err einval)
to_isize-injective_example = to_isize-injective (err einval) (err einval) tt tt refl
