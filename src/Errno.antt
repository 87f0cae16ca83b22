-- ===== src/Errno.antt =====
-- `Errno` of crates/kernel/src/syscall/errno.rs: the error codes of system calls, with their numbers
-- (`#[repr(i32)]`).
pub mod Codes
mod Tests
use kados_ng.Base.{ℕ, ◌-◌, ◌^◌}

pub data Errno : Type 0 where
  eperm enoent esrch eintr eio enxio e2big enoexec ebadf : Errno
  echild eagain enomem eacces efault enotblk ebusy eexist exdev : Errno
  enodev enotdir eisdir einval enfile emfile enotty etxtbsy efbig : Errno
  enospc espipe erofs emlink epipe edom erange edeadlk enametoolong : Errno
  enolck enosys enotempty eloop enomsg eidrm echrng el2nsync el3hlt : Errno
  el3rst elnrng eunatch enocsi el2hlt ebade ebadr exfull enoano : Errno
  ebadrqc ebadslt ebfont enostr enodata etime enosr enonet enopkg : Errno
  eremote enolink eadv esrmnt ecomm eproto emultihop edotdot ebadmsg : Errno
  eoverflow enotuniq ebadfd eremchg elibacc elibbad elibscn elibmax elibexec : Errno
  eilseq erestart estrpipe eusers enotsock edestaddrreq emsgsize eprototype enoprotoopt : Errno
  eprotonosupport esocktnosupport eopnotsupp epfnosupport eafnosupport eaddrinuse eaddrnotavail
        enetdown enetunreach :
      Errno
  enetreset econnaborted econnreset enobufs eisconn enotconn eshutdown etoomanyrefs etimedout :
      Errno
  econnrefused ehostdown ehostunreach ealready einprogress estale euclean enotnam enavail : Errno
  eisnam eremoteio edquot enomedium emediumtype ecanceled enokey ekeyexpired ekeyrevoked : Errno
  ekeyrejected eownerdead enotrecoverable erfkill ehwpoison : Errno

unfoldable pub code : Errno → ℕ
code eperm = 1
code enoent = 2
code esrch = 3
code eintr = 4
code eio = 5
code enxio = 6
code e2big = 7
code enoexec = 8
code ebadf = 9
code echild = 10
code eagain = 11
code enomem = 12
code eacces = 13
code efault = 14
code enotblk = 15
code ebusy = 16
code eexist = 17
code exdev = 18
code enodev = 19
code enotdir = 20
code eisdir = 21
code einval = 22
code enfile = 23
code emfile = 24
code enotty = 25
code etxtbsy = 26
code efbig = 27
code enospc = 28
code espipe = 29
code erofs = 30
code emlink = 31
code epipe = 32
code edom = 33
code erange = 34
code edeadlk = 35
code enametoolong = 36
code enolck = 37
code enosys = 38
code enotempty = 39
code eloop = 40
code enomsg = 42
code eidrm = 43
code echrng = 44
code el2nsync = 45
code el3hlt = 46
code el3rst = 47
code elnrng = 48
code eunatch = 49
code enocsi = 50
code el2hlt = 51
code ebade = 52
code ebadr = 53
code exfull = 54
code enoano = 55
code ebadrqc = 56
code ebadslt = 57
code ebfont = 59
code enostr = 60
code enodata = 61
code etime = 62
code enosr = 63
code enonet = 64
code enopkg = 65
code eremote = 66
code enolink = 67
code eadv = 68
code esrmnt = 69
code ecomm = 70
code eproto = 71
code emultihop = 72
code edotdot = 73
code ebadmsg = 74
code eoverflow = 75
code enotuniq = 76
code ebadfd = 77
code eremchg = 78
code elibacc = 79
code elibbad = 80
code elibscn = 81
code elibmax = 82
code elibexec = 83
code eilseq = 84
code erestart = 85
code estrpipe = 86
code eusers = 87
code enotsock = 88
code edestaddrreq = 89
code emsgsize = 90
code eprototype = 91
code enoprotoopt = 92
code eprotonosupport = 93
code esocktnosupport = 94
code eopnotsupp = 95
code epfnosupport = 96
code eafnosupport = 97
code eaddrinuse = 98
code eaddrnotavail = 99
code enetdown = 100
code enetunreach = 101
code enetreset = 102
code econnaborted = 103
code econnreset = 104
code enobufs = 105
code eisconn = 106
code enotconn = 107
code eshutdown = 108
code etoomanyrefs = 109
code etimedout = 110
code econnrefused = 111
code ehostdown = 112
code ehostunreach = 113
code ealready = 114
code einprogress = 115
code estale = 116
code euclean = 117
code enotnam = 118
code enavail = 119
code eisnam = 120
code eremoteio = 121
code edquot = 122
code enomedium = 123
code emediumtype = 124
code ecanceled = 125
code enokey = 126
code ekeyexpired = 127
code ekeyrevoked = 128
code ekeyrejected = 129
code eownerdead = 130
code enotrecoverable = 131
code erfkill = 132
code ehwpoison = 133

-- `isize` as a word of 64 bits.
abbrev pub ISize : Type 0
ISize = ℕ

pub data Result (A : Type 0) : Type 0 where
  ok : A → Result A
  err : Errno → Result A

-- `ErrnoResult::to_isize` of `Result<isize, Errno>`
abbrev pub to_isize : Result ISize → ISize
to_isize (ok retval) = retval
to_isize (err e) = 2 ^ 64 - code e

-- `ErrnoResult::to_isize` of `Result<(), Errno>`
abbrev pub unit_to_isize : Result (Unit {0}) → ISize
unit_to_isize (ok u) = 0
unit_to_isize (err e) = 2 ^ 64 - code e
