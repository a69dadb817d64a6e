-- ===== src/Puppets/Resize.antt =====
-- `PuppetHolder::resizeHolder`
use smoo_bazel.Base.{
  ℕ, zero, suc, ◌+◌, ◌<◌, ◌≡◌, refl, ◌≢◌, true, Option, none, List, [], arith, length,
}
use smoo_bazel.Puppets.{
  copy_puppet, resize_test, resize_loop, out_of_fuel, resize_holder, PuppetActor, PuppetHolder,
}

resize_test-loops : (i count size : ℕ) → 0 < count → 0 < size → resize_test i count size ≡ true
unfolding resize_test
resize_test-loops i count size hc hs = ground arith

resize_loop-none :
    (fuel : ℕ) (old : List PuppetActor) (size i : ℕ) (done : List (Option PuppetActor))
    → 0 < length old
    → 0 < size
    → resize_loop fuel old size i done ≡ none
unfolding resize_loop
resize_loop-none zero old size i done hc hs = refl
resize_loop-none (suc fuel) old size i done hc hs =
    rw (resize_test-loops i (length old) size hc hs)
      (resize_loop-none fuel old size (i + 1) (copy_puppet old i size done) hc hs)

-- Once the holder has a buffer and holds a puppet, a resize to any other capacity above 0 for
-- which there is memory does not end: its copying loop runs out of every amount of fuel.
pub resize_holder-loops :
    (fuel size : ℕ) (h : PuppetHolder)
    → h.capacity ≢ size
    → 0 < size
    → h.buffer_ready ≡ true
    → 0 < length h.puppets
    → resize_holder fuel true size h ≡ out_of_fuel
unfolding resize_holder
resize_holder-loops fuel size h differ hs ready hc =
    ground (arith, resize_loop-none fuel h.puppets size 0 [])
