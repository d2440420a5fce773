-- ===== src/Boot/Twi/ReadBack.antt =====
-- main.c: what a master reads back of a page, a write of the page's address and a read behind it.
use split_flap.Common.{
  ℕ, arith, zero, suc, ◌+◌, ◌*◌, ◌%◌, ◌<◌, ◌≡◌, refl, ap, ◌∙◌, List, [], ◌∷◌, ◌++◌, if_both, length,
  get_or, u16, IsByte, All,
}
use split_flap.Boot.Hardware.{page_size, bootloader_start, Hardware, IsSpm}
use split_flap.Boot.State.{Image, fielded, lean, access_flash, write_flash_page, Boot}
use split_flap.Boot.Memory.{data_read, program_page}
use split_flap.Boot.Twi.{
  Event, slave_write, slave_read, sent_acked, stop, on_stop, on_send, write_received, twi_vect,
  serve,
}
use split_flap.Boot.Twi.Page.{got, page_transfer, opened, received, page_programmed}

-- SLA+W, 0x02, 0x01, addrh, addrl, repeated START
abbrev pub page_request : ℕ → ℕ → List Event
page_request hi lo = slave_write ∷ got (2 ∷ 1 ∷ hi ∷ lo ∷ []) ++ (stop ∷ [])

module _ {F E : Type 0} (hw : Hardware F E) (image : Image) where
  -- The bytes that a read puts out, from an event on.
  unfoldable pub put_out : Event → ℕ → Boot F E → List ℕ
  unfolding twi_vect
  put_out e zero s = []
  put_out e (suc n) s = let t = twi_vect hw image e s in t.twdr ∷ put_out sent_acked n t

  -- A state that a read of the flash from `addr` on finds.
  pub record Reading (addr : ℕ) (f : F) (s : Boot F E) : Type 0 where
    pub command : s.cmd ≡ access_flash
    pub place : s.addr ≡ addr
    pub kept : s.flash ≡ f

  data_read-flash :
      (i : Image) (bcnt : ℕ) (s : Boot F E)
      → data_read hw i access_flash bcnt s
        ≡ (hw.read_flash s.flash s.addr, record s { addr = u16 (s.addr + 1) })
  unfolding data_read
  data_read-flash fielded bcnt s = refl
  data_read-flash lean bcnt s = refl

  on_send-Reading :
      (addr : ℕ) (f : F) (s : Boot F E)
      → addr + 1 < 65536
      → Reading addr f s
      → ((on_send hw image s).twdr ≡ hw.read_flash f addr)
        × Reading (addr + 1) f (on_send hw image s)
  unfolding on_send
  on_send-Reading addr f s h p =
      let e = ap (λ c. data_read hw image c s.bcnt s) p.command ∙ data_read-flash image s.bcnt s in
      let next : u16 (s.addr + 1) ≡ addr + 1 = omega (arith, p.place) in
      (
        ap (λ r. r.0) e ∙ ap (λ g. hw.read_flash g s.addr) p.kept ∙ ap (hw.read_flash f) p.place,
        record {
          command = ap (λ r. r.1.cmd) e ∙ p.command;
          place = ap (λ r. r.1.addr) e ∙ next;
          kept = ap (λ r. r.1.flash) e ∙ p.kept;
        },
      )

  sent_on :
      (n addr : ℕ) (f : F) (s : Boot F E)
      → addr + n < 65536
      → Reading addr f s
      → (i : ℕ) → i < n
      → get_or (put_out sent_acked n s) i 0 ≡ hw.read_flash f (addr + i)
  unfolding put_out twi_vect
  sent_on zero addr f s h p i l = absurd (omega arith)
  sent_on (suc n) addr f s h p zero l =
      let e : addr + 0 ≡ addr = omega arith in rw e (on_send-Reading addr f s (omega arith) p).0
  sent_on (suc n) addr f s h p (suc i) l =
      let e : addr + suc i ≡ addr + 1 + i = omega arith in
      rw e (
        sent_on n (addr + 1) f (on_send hw image s) (omega arith)
          (on_send-Reading addr f s (omega arith) p).1 i (omega arith))

  pub read_from :
      (n addr : ℕ) (f : F) (s : Boot F E)
      → addr + n < 65536
      → Reading addr f s
      → (i : ℕ) → i < n
      → get_or (put_out slave_read n s) i 0 ≡ hw.read_flash f (addr + i)
  unfolding put_out twi_vect
  read_from zero addr f s h p i l = absurd (omega arith)
  read_from (suc n) addr f s h p i l =
      let q : Reading addr f (record s { bcnt = 0 }) = record {
        command = p.command;
        place = p.place;
        kept = p.kept;
      } in
      first_or_later i l q
    where
      first_or_later :
          (i : ℕ)
          → i < suc n
          → Reading addr f (record s { bcnt = 0 })
          → get_or (put_out slave_read (suc n) s) i 0 ≡ hw.read_flash f (addr + i)
      first_or_later zero l q =
          let e : addr + 0 ≡ addr = omega arith in
          rw e (on_send-Reading addr f (record s { bcnt = 0 }) (omega arith) q).0
      first_or_later (suc i) l q =
          let e : addr + suc i ≡ addr + 1 + i = omega arith in
          rw e (
            sent_on n (addr + 1) f (on_send hw image (record s { bcnt = 0 })) (omega arith)
              (on_send-Reading addr f (record s { bcnt = 0 }) (omega arith) q).1 i (omega arith))

  on_stop-keeps :
      (s : Boot F E)
      → s.cmd ≡ access_flash
      → ((on_stop hw image s).cmd ≡ access_flash)
        × ((on_stop hw image s).addr ≡ s.addr)
        × ((on_stop hw image s).flash ≡ s.flash)
  unfolding on_stop write_received
  on_stop-keeps s c =
      let e = ap (λ c. write_received hw image c s) c in
      (ap (λ t. t.cmd) e ∙ c, ap (λ t. t.addr) e, ap (λ t. t.flash) e)

  pub requested :
      (hi lo : ℕ) (s : Boot F E)
      → IsByte hi
      → IsByte lo
      → length s.buf ≡ page_size
      → Reading (hi * 256 + lo) s.flash (serve hw image (page_request hi lo) s)
  unfolding serve twi_vect
  requested hi lo s h l w =
      let o = opened hw image image hi lo s h l w in
      let t = serve hw image (slave_write ∷ got (2 ∷ 1 ∷ hi ∷ lo ∷ [])) s in
      let c : t.cmd ≡ access_flash = ground (arith, o.command) in
      let (cmd, addr, flash) = on_stop-keeps t c in
      record { command = cmd; place = addr ∙ o.at; kept = flash ∙ o.flash_kept }

module _ {F E : Type 0} (hw : Hardware F E) (spm : IsSpm hw) (image : Image) where
  program_page-buf : (s : Boot F E) → (program_page hw s).buf ≡ s.buf
  unfolding program_page
  program_page-buf s = if_both (λ (t : Boot F E). t.buf ≡ s.buf) _ _ s refl refl

  pub page_transfer-buf :
      (hi lo : ℕ) (bytes : List ℕ) (s : Boot F E)
      → IsByte hi
      → IsByte lo
      → length s.buf ≡ page_size
      → length bytes ≡ page_size
      → length (serve hw image (page_transfer hi lo bytes) s).buf ≡ page_size
  unfolding on_stop write_received
  page_transfer-buf hi lo bytes s h l w n =
      let (t, e, q, stored) = received hw image hi lo bytes s h l w (omega arith) in
      let c : t.cmd ≡ write_flash_page = ground (arith, q.command) in
      ap (λ u. length u.buf) e
      ∙ ap (λ c. length (write_received hw image c t).buf) c
      ∙ ap length (program_page-buf t)
      ∙ q.whole

  -- On a chip with the laws of self-programming, in either image: behind a page transfer of 128
  -- bytes to the start of a page below the bootloader, a request of that page and a read of 128
  -- bytes puts out the bytes that were sent.
  pub page_read_back :
      (hi lo : ℕ) (bytes : List ℕ) (s : Boot F E)
      → IsByte hi
      → IsByte lo
      → All IsByte bytes
      → length s.buf ≡ page_size
      → length bytes ≡ page_size
      → (hi * 256 + lo) % page_size ≡ 0
      → hi * 256 + lo < bootloader_start
      → (i : ℕ) → i < page_size
      → let t = serve hw image (page_transfer hi lo bytes) s in
        get_or (put_out hw image slave_read page_size (serve hw image (page_request hi lo) t)) i 0
        ≡ get_or bytes i 0
  page_read_back hi lo bytes s h l all w n al low i m =
      let t = serve hw image (page_transfer hi lo bytes) s in
      let (a, inside, outside) = page_programmed hw spm image hi lo bytes s h l all w n al low in
      read_from hw image page_size (hi * 256 + lo) t.flash _ (omega arith)
        (requested hw image hi lo t h l (page_transfer-buf hi lo bytes s h l w n)) i m
      ∙ inside i m
