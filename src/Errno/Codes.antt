-- ===== src/Errno/Codes.antt =====
-- The numbers of the error codes are different, and a system call's result can be told apart from an
-- error.
use kados_ng.Base.{
  ℕ, ◌^◌, ◌≡◌, ◌<◌, ◌≤◌, refl, arith, ap, sym, ◌∙◌, Option, none, some, List, [], ◌∷◌, get_elem?,
  get_elem?_of_ge, ◌≢◌,
}
use mathlib.Core.Option.{some-injective, none-ne-some}
use kados_ng.Errno.{Errno, code, Result, ISize, ok, err, to_isize}
use kados_ng.Errno.{
  eperm, enoent, esrch, eintr, eio, enxio, e2big, enoexec, ebadf, echild, eagain, enomem, eacces,
  efault, enotblk, ebusy, eexist, exdev, enodev, enotdir, eisdir, einval, enfile, emfile, enotty,
  etxtbsy, efbig, enospc, espipe, erofs, emlink, epipe, edom, erange, edeadlk, enametoolong, enolck,
  enosys, enotempty, eloop, enomsg, eidrm, echrng, el2nsync, el3hlt, el3rst, elnrng, eunatch,
  enocsi, el2hlt, ebade, ebadr, exfull, enoano, ebadrqc, ebadslt, ebfont, enostr, enodata, etime,
  enosr, enonet, enopkg, eremote, enolink, eadv, esrmnt, ecomm, eproto, emultihop, edotdot, ebadmsg,
  eoverflow, enotuniq, ebadfd, eremchg, elibacc, elibbad, elibscn, elibmax, elibexec, eilseq,
  erestart, estrpipe, eusers, enotsock, edestaddrreq, emsgsize, eprototype, enoprotoopt,
  eprotonosupport, esocktnosupport, eopnotsupp, epfnosupport, eafnosupport, eaddrinuse,
  eaddrnotavail, enetdown, enetunreach, enetreset, econnaborted, econnreset, enobufs, eisconn,
  enotconn, eshutdown, etoomanyrefs, etimedout, econnrefused, ehostdown, ehostunreach, ealready,
  einprogress, estale, euclean, enotnam, enavail, eisnam, eremoteio, edquot, enomedium, emediumtype,
  ecanceled, enokey, ekeyexpired, ekeyrevoked, ekeyrejected, eownerdead, enotrecoverable, erfkill,
  ehwpoison,
}

-- The code with a number.
abbrev from_code_table : List (Option Errno)
from_code_table =
    none
    ∷ some eperm
    ∷ some enoent
    ∷ some esrch
    ∷ some eintr
    ∷ some eio
    ∷ some enxio
    ∷ some e2big
    ∷ some enoexec
    ∷ some ebadf
    ∷ some echild
    ∷ some eagain
    ∷ some enomem
    ∷ some eacces
    ∷ some efault
    ∷ some enotblk
    ∷ some ebusy
    ∷ some eexist
    ∷ some exdev
    ∷ some enodev
    ∷ some enotdir
    ∷ some eisdir
    ∷ some einval
    ∷ some enfile
    ∷ some emfile
    ∷ some enotty
    ∷ some etxtbsy
    ∷ some efbig
    ∷ some enospc
    ∷ some espipe
    ∷ some erofs
    ∷ some emlink
    ∷ some epipe
    ∷ some edom
    ∷ some erange
    ∷ some edeadlk
    ∷ some enametoolong
    ∷ some enolck
    ∷ some enosys
    ∷ some enotempty
    ∷ some eloop
    ∷ none
    ∷ some enomsg
    ∷ some eidrm
    ∷ some echrng
    ∷ some el2nsync
    ∷ some el3hlt
    ∷ some el3rst
    ∷ some elnrng
    ∷ some eunatch
    ∷ some enocsi
    ∷ some el2hlt
    ∷ some ebade
    ∷ some ebadr
    ∷ some exfull
    ∷ some enoano
    ∷ some ebadrqc
    ∷ some ebadslt
    ∷ none
    ∷ some ebfont
    ∷ some enostr
    ∷ some enodata
    ∷ some etime
    ∷ some enosr
    ∷ some enonet
    ∷ some enopkg
    ∷ some eremote
    ∷ some enolink
    ∷ some eadv
    ∷ some esrmnt
    ∷ some ecomm
    ∷ some eproto
    ∷ some emultihop
    ∷ some edotdot
    ∷ some ebadmsg
    ∷ some eoverflow
    ∷ some enotuniq
    ∷ some ebadfd
    ∷ some eremchg
    ∷ some elibacc
    ∷ some elibbad
    ∷ some elibscn
    ∷ some elibmax
    ∷ some elibexec
    ∷ some eilseq
    ∷ some erestart
    ∷ some estrpipe
    ∷ some eusers
    ∷ some enotsock
    ∷ some edestaddrreq
    ∷ some emsgsize
    ∷ some eprototype
    ∷ some enoprotoopt
    ∷ some eprotonosupport
    ∷ some esocktnosupport
    ∷ some eopnotsupp
    ∷ some epfnosupport
    ∷ some eafnosupport
    ∷ some eaddrinuse
    ∷ some eaddrnotavail
    ∷ some enetdown
    ∷ some enetunreach
    ∷ some enetreset
    ∷ some econnaborted
    ∷ some econnreset
    ∷ some enobufs
    ∷ some eisconn
    ∷ some enotconn
    ∷ some eshutdown
    ∷ some etoomanyrefs
    ∷ some etimedout
    ∷ some econnrefused
    ∷ some ehostdown
    ∷ some ehostunreach
    ∷ some ealready
    ∷ some einprogress
    ∷ some estale
    ∷ some euclean
    ∷ some enotnam
    ∷ some enavail
    ∷ some eisnam
    ∷ some eremoteio
    ∷ some edquot
    ∷ some enomedium
    ∷ some emediumtype
    ∷ some ecanceled
    ∷ some enokey
    ∷ some ekeyexpired
    ∷ some ekeyrevoked
    ∷ some ekeyrejected
    ∷ some eownerdead
    ∷ some enotrecoverable
    ∷ some erfkill
    ∷ some ehwpoison
    ∷ []

abbrev flatten : Option (Option Errno) → Option Errno
flatten none = none
flatten (some o) = o

abbrev from_code : ℕ → Option Errno
from_code n = flatten (get_elem? from_code_table n)

from_code-code : (e : Errno) → from_code (code e) ≡ some e
unfolding code
from_code-code eperm = refl
from_code-code enoent = refl
from_code-code esrch = refl
from_code-code eintr = refl
from_code-code eio = refl
from_code-code enxio = refl
from_code-code e2big = refl
from_code-code enoexec = refl
from_code-code ebadf = refl
from_code-code echild = refl
from_code-code eagain = refl
from_code-code enomem = refl
from_code-code eacces = refl
from_code-code efault = refl
from_code-code enotblk = refl
from_code-code ebusy = refl
from_code-code eexist = refl
from_code-code exdev = refl
from_code-code enodev = refl
from_code-code enotdir = refl
from_code-code eisdir = refl
from_code-code einval = refl
from_code-code enfile = refl
from_code-code emfile = refl
from_code-code enotty = refl
from_code-code etxtbsy = refl
from_code-code efbig = refl
from_code-code enospc = refl
from_code-code espipe = refl
from_code-code erofs = refl
from_code-code emlink = refl
from_code-code epipe = refl
from_code-code edom = refl
from_code-code erange = refl
from_code-code edeadlk = refl
from_code-code enametoolong = refl
from_code-code enolck = refl
from_code-code enosys = refl
from_code-code enotempty = refl
from_code-code eloop = refl
from_code-code enomsg = refl
from_code-code eidrm = refl
from_code-code echrng = refl
from_code-code el2nsync = refl
from_code-code el3hlt = refl
from_code-code el3rst = refl
from_code-code elnrng = refl
from_code-code eunatch = refl
from_code-code enocsi = refl
from_code-code el2hlt = refl
from_code-code ebade = refl
from_code-code ebadr = refl
from_code-code exfull = refl
from_code-code enoano = refl
from_code-code ebadrqc = refl
from_code-code ebadslt = refl
from_code-code ebfont = refl
from_code-code enostr = refl
from_code-code enodata = refl
from_code-code etime = refl
from_code-code enosr = refl
from_code-code enonet = refl
from_code-code enopkg = refl
from_code-code eremote = refl
from_code-code enolink = refl
from_code-code eadv = refl
from_code-code esrmnt = refl
from_code-code ecomm = refl
from_code-code eproto = refl
from_code-code emultihop = refl
from_code-code edotdot = refl
from_code-code ebadmsg = refl
from_code-code eoverflow = refl
from_code-code enotuniq = refl
from_code-code ebadfd = refl
from_code-code eremchg = refl
from_code-code elibacc = refl
from_code-code elibbad = refl
from_code-code elibscn = refl
from_code-code elibmax = refl
from_code-code elibexec = refl
from_code-code eilseq = refl
from_code-code erestart = refl
from_code-code estrpipe = refl
from_code-code eusers = refl
from_code-code enotsock = refl
from_code-code edestaddrreq = refl
from_code-code emsgsize = refl
from_code-code eprototype = refl
from_code-code enoprotoopt = refl
from_code-code eprotonosupport = refl
from_code-code esocktnosupport = refl
from_code-code eopnotsupp = refl
from_code-code epfnosupport = refl
from_code-code eafnosupport = refl
from_code-code eaddrinuse = refl
from_code-code eaddrnotavail = refl
from_code-code enetdown = refl
from_code-code enetunreach = refl
from_code-code enetreset = refl
from_code-code econnaborted = refl
from_code-code econnreset = refl
from_code-code enobufs = refl
from_code-code eisconn = refl
from_code-code enotconn = refl
from_code-code eshutdown = refl
from_code-code etoomanyrefs = refl
from_code-code etimedout = refl
from_code-code econnrefused = refl
from_code-code ehostdown = refl
from_code-code ehostunreach = refl
from_code-code ealready = refl
from_code-code einprogress = refl
from_code-code estale = refl
from_code-code euclean = refl
from_code-code enotnam = refl
from_code-code enavail = refl
from_code-code eisnam = refl
from_code-code eremoteio = refl
from_code-code edquot = refl
from_code-code enomedium = refl
from_code-code emediumtype = refl
from_code-code ecanceled = refl
from_code-code enokey = refl
from_code-code ekeyexpired = refl
from_code-code ekeyrevoked = refl
from_code-code ekeyrejected = refl
from_code-code eownerdead = refl
from_code-code enotrecoverable = refl
from_code-code erfkill = refl
from_code-code ehwpoison = refl

code-bounds : (e : Errno) → (1 ≤ code e) × (code e ≤ 133)
code-bounds e = (omega (arith, positive), omega (arith, bounded))
  where
    positive : code e ≢ 0
    positive h = none-ne-some e (ap from_code (sym h) ∙ from_code-code e)

    bounded : ¬ (134 ≤ code e)
    bounded h =
        none-ne-some e
          (sym (ap flatten (get_elem?_of_ge from_code_table (code e) h)) ∙ from_code-code e)

code-injective : (a b : Errno) → code a ≡ code b → a ≡ b
code-injective a b h =
    some-injective a b (sym (from_code-code a) ∙ ap from_code h ∙ from_code-code b)

-- A value that is returned is not negative, so it is below 2 ^ 63.
abbrev pub IsRetval : Result ISize → Type 0
IsRetval (ok v) = v < 2 ^ 63
IsRetval (err e) = Unit

-- A result can be told from what `to_isize` makes of it: two results with the same number are the
-- same, as long as a returned value is not negative as an `isize`.
pub to_isize-injective :
    (a b : Result ISize) → IsRetval a → IsRetval b → to_isize a ≡ to_isize b → a ≡ b
to_isize-injective (ok v) (ok w) h k e = ap ok e
to_isize-injective (ok v) (err b) h k e = absurd (omega (arith, code-bounds b))
to_isize-injective (err a) (ok w) h k e = absurd (omega (arith, code-bounds a))
to_isize-injective (err a) (err b) h k e =
    ap err (code-injective a b (omega (arith, code-bounds a, code-bounds b)))
