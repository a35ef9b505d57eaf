-- ===== src/Tests/Protect.antt =====
-- kernel/mm/mmap.c: a mapped page of the data area becomes read-only.
use jnu.Base.{◌+◌, arith}
use jnu.Mm.Space.{page_align_up, prot_to_vma}
use jnu.Mm.Space.Protect.{sys_mprotect}
use jnu.Mm.Space.Protect.Range.{Protecting}
use jnu.Mm.Space.Protect.Call.{mprotect_may_fail, sys_mprotect-Protecting}
use jnu.Tests.Vma.{touched, touched-Sound, plenty}
use jnu.Tests.Clone.{touched-NoHuge}

sys_mprotect-Protecting_example :
    Protecting 0
      (λ p. 1)
      (prot_to_vma 1)
      touched
      0x1000
      (0x1000 + page_align_up 0x1000)
      (mprotect_may_fail 0x1000 0x1000 1 plenty)
      (sys_mprotect 0 (λ p. 1) touched 0x1000 0x1000 1 plenty)
sys_mprotect-Protecting_example =
    sys_mprotect-Protecting 0 (λ p. 1) 0x1000 0x1000 1 plenty touched-Sound touched-NoHuge
      (omega arith) (omega arith)
