-- ===== src/Mm/Mmap/Tests.antt =====
-- `do_mmap` at a concrete call.
use prettyos.Common.{◌≡◌, none, [], refl}
use prettyos.Mm.Mmap.{do_mmap, page_align, find_address, at_null, without_file, mapped}

-- A private mapping without a file, of a page
private_page : do_mmap none [] 0x40000000 4096 2 ≡ at_null
unfolding do_mmap find_address page_align without_file
private_page = refl

-- A length that wraps to 0
wrapped : do_mmap none [] 0x40000000 0xfffffff0 2 ≡ mapped 0x40000000
unfolding do_mmap page_align
wrapped = refl
