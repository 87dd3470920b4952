-- ===== src/Kernel/Capture.antt =====
-- What a request captures of its images and its output.
use pi_ipython.Common.{
  units, ℕ, suc, ◌+◌, ◌<◌, Text, text_eq_refl, Bool, false, ◌&&◌, none, some, List, [], ◌∷◌, ◌++◌,
  length, length-append, ◌≡◌, refl, arith, subst, ltb, leb, Bool-cases, inl, inr,
}
use pi_ipython.Common.Utf8.{byte_length}
use pi_ipython.Protocol.{BridgeMessage}
use pi_ipython.Output.Ansi.{strip_ansi}
use pi_ipython.Kernel.State.{
  output_capture_limit_bytes, image_limit, image_limit_bytes, Active, Effect, output_path,
  Interrupt, Kernel, Disk, save_output, write_output, interrupt,
}
use pi_ipython.Kernel.Lines.{
  on_message, on_image, on_output, on_overflow, extend_output, total_length,
}

-- The image messages of a request, one after the other.
pub run_images : Disk → Text → List Text → Kernel → Kernel
run_images d id [] k = k
run_images d id (png ∷ pngs) k = run_images d id pngs (on_message d (BridgeMessage.image id png) k)

abbrev pub image_count : Active → ℕ
image_count a = length a.images + a.images_dropped

abbrev fits_limits : Text → Active → Bool
fits_limits png a =
    ltb (length a.images) image_limit && leb (total_length a.images + units png) image_limit_bytes

on_image_counts :
    (d : Disk) (png : Text) (a : Active) (k : Kernel)
    → k.active ≡ some a
    → (b : Active) × (b.request_id ≡ a.request_id)
      × (image_count b ≡ suc (image_count a))
      × ((on_message d (BridgeMessage.image a.request_id png) k).active ≡ some b)
unfolding on_message on_image
on_image_counts d png a k e = elim (Bool-cases (fits_limits png a)) [
  | inl kept ↦ (
    record a { images = a.images ++ png ∷ [] },
    refl,
    omega (arith, length-append a.images (png ∷ [])),
    ground (arith, text_eq_refl a.request_id),
  )
  | inr dropped ↦ (
    record a { images_dropped = a.images_dropped + 1 },
    refl,
    omega arith,
    ground (arith, text_eq_refl a.request_id),
  )
]

-- The images of a cell are all accounted for: each one is kept or counted as dropped.
pub images_counted :
    (d : Disk) (pngs : List Text) (a : Active) (k : Kernel)
    → k.active ≡ some a
    → (b : Active) × (image_count b ≡ image_count a + length pngs)
      × ((run_images d a.request_id pngs k).active ≡ some b)
unfolding run_images
images_counted d [] a k e = (a, omega arith, e)
images_counted d (png ∷ pngs) a k e =
    let (b, same, one, f) = on_image_counts d png a k e in
    let (c, all, g) =
      images_counted d pngs b (on_message d (BridgeMessage.image a.request_id png) k) f in
    (
      c,
      omega arith,
      subst
          (λ id.
            (run_images d id pngs (on_message d (BridgeMessage.image a.request_id png) k)).active
            ≡ some c)
          same g,
    )

-- Once a cell is interrupted for another reason (it was cancelled), the capture limit does not stop
-- it: each output message past the limit extends the output and saves it whole, in a file with the
-- next number. (The directory is there, and the write succeeds.)
pub late_overflow_saves_again :
    (d : Disk) (kind chunk directory : Text) (c f : Bool) (a : Active) (i : Interrupt) (k : Kernel)
    → a.interrupt ≡ some i
    → i.overflow ≡ false
    → k.disposed ≡ false
    → k.output_directory ≡ some directory
    → d.write_error ≡ none
    → output_capture_limit_bytes < byte_length (extend_output kind chunk c f a.output)
    → let after = on_output d kind chunk c f a k in
      (after.log
        ≡ Effect.saved
            (output_path directory (suc k.output_index))
            (strip_ansi (extend_output kind chunk c f a.output))
          ∷ k.log)
      × (after.output_index ≡ suc k.output_index)
      × (after.active ≡ some (record a { output = extend_output kind chunk c f a.output }))
unfolding on_output on_overflow save_output write_output interrupt
late_overflow_saves_again d kind chunk directory c f a i k e o v r w h = ground arith
