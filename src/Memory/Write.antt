-- ===== src/Memory/Write.antt =====
-- Equations between heaps that are written more than once.
use mathlib.Core.Path.{fun_ext}
use service_call.Base.{ℕ, ◌≡◌, Option, none, arith}
use service_call.Memory.{Heap, Block, write}

pub write_self : (h : Heap) (p : ℕ) (b : Option Block) → write h p b p ≡ b
unfolding write
write_self h p b = ground arith

pub write-write : (h : Heap) (p : ℕ) (b c : Option Block) → write (write h p b) p c ≡ write h p c
unfolding write
write-write h p b c = fun_ext λ a. ground arith

pub write_back : (h : Heap) (p : ℕ) (b : Option Block) → h p ≡ none → write (write h p b) p none ≡ h
unfolding write
write_back h p b e = fun_ext λ a. ground arith
