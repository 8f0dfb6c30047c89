-- ===== src/Pico.antt =====
-- include/pico/pico_vr_controller.hpp: the state of the two hand controllers.
use gearsonic_inference.Common.{Bool}

pub record Controller (Real : Type 0) : Type 0 where
  pub left_x : Real  -- left_axis[0]
  pub left_y : Real  -- left_axis[1]
  pub right_x : Real  -- right_axis[0]
  pub right_y : Real  -- right_axis[1]
  pub btn_a : Bool
  pub btn_b : Bool
  pub btn_x : Bool
  pub btn_y : Bool
  pub left_trigger : Real
  pub right_trigger : Real
  pub left_grip : Real
  pub right_grip : Real
