-- ===== src/Client/Anims/Part3.antt =====
-- A part of the table of animation names, `s_Strs` of mod/src/algorithms/PlayerAnims.h.
use Prim.Native.String.{String}
use mathlib.Core.List.{List, [], ◌∷◌}

abbrev pub part_3 : List String
part_3 =
    "SlopeSlide" ∷ "SlopeSlideBack" ∷ "Snooze" ∷ "SnoozeStart" ∷ "SphinxRideClash"
    ∷ "SphinxRideFall" ∷ "SphinxRideGetOn" ∷ "SphinxRideJump" ∷ "SphinxRideJumpStart"
    ∷ "SphinxRideOn" ∷ "SphinxRideRide" ∷ "SphinxRideRideOn" ∷ "SphinxRideRideStartL"
    ∷ "SphinxRideRideStartR" ∷ "SphinxRideRunSlow" ∷ "SphinxRideStop" ∷ "SphinxRideStopStart"
    ∷ "SpinCap" ∷ "SpinCapAirStart" ∷ "SpinCapAirStartCapCatch" ∷ "SpinCapAirStartDoubleDown"
    ∷ "SpinCapAirStartDoubleLeft" ∷ "SpinCapAirStartDoubleRight" ∷ "SpinCapAirStartDoubleUp"
    ∷ "SpinCapAirStartLeft" ∷ "SpinCapAirStartLong" ∷ "SpinCapAirStartRight" ∷ "SpinCapEnd"
    ∷ "SpinCapJumpStart" ∷ "SpinCapStart" ∷ "SpinCapStart2Left" ∷ "SpinCapStart2Right"
    ∷ "SpinCapStart3Left" ∷ "SpinCapStart3Right" ∷ "SpinCapStartCapCatch" ∷ "SpinCapStartDoubleDown"
    ∷ "SpinCapStartDoubleLeft" ∷ "SpinCapStartDoubleRight" ∷ "SpinCapStartDoubleUp"
    ∷ "SpinCapStartLeft" ∷ "SpinCapStartLong" ∷ "SpinCapStartRight" ∷ "SpinCapStartRolling"
    ∷ "SpinCapWait" ∷ "SpinGroundL" ∷ "SpinGroundR" ∷ "SpinJump" ∷ "SpinJumpDownFall"
    ∷ "SpinJumpDownFallL" ∷ "SpinJumpDownFallR" ∷ "SpinJumpL" ∷ "SpinJumpLoop" ∷ "SpinJumpR"
    ∷ "SpinJumpStart" ∷ "SpinSeparate" ∷ "SpinSeparateSwim" ∷ "SquatEnd" ∷ "SquatLand"
    ∷ "SquatStart" ∷ "SquatWait" ∷ "SquatWalk" ∷ "StabStart" ∷ "StabUndarWait" ∷ "StabUnderStart"
    ∷ "StabWait" ∷ "StabWallWait" ∷ "SwimDieOver" ∷ "SwimDive" ∷ "SwimFallIn" ∷ "SwimHeadSliding"
    ∷ "SwimHeadSlidingEnd" ∷ "SwimHeadSlidingIn" ∷ "SwimHeadSlidingStart" ∷ "SwimHipDrop"
    ∷ "SwimHipDropLand" ∷ "SwimHipDropStart" ∷ "SwimJumpHipDrop" ∷ "SwimLand" ∷ "SwimSpinCapStart"
    ∷ "SwimSpinCapStartDoubleDown" ∷ "SwimSpinCapStartDoubleLeft" ∷ "SwimSpinCapStartDoubleRight"
    ∷ "SwimSpinCapStartDoubleUp" ∷ "SwimSpinCapStartLeft" ∷ "SwimSpinCapStartRight" ∷ "SwimSquat"
    ∷ "SwimSquatWalk" ∷ "SwimStand" ∷ "SwimStandMove" ∷ "SwimStandSurface" ∷ "SwimStandWait"
    ∷ "SwimSurface" ∷ "SwimTalkWait" ∷ "SwimTrample" ∷ "SwimTrampoline" ∷ "SwimWait" ∷ "SwimWalk"
    ∷ "TalkEnd" ∷ "TalkTurn" ∷ "TalkTurnL90" ∷ "TalkTurnR90" ∷ "TalkWait" ∷ "TestDemoDiverA"
    ∷ "TestDemoDiverB" ∷ "TestDemoE3001" ∷ "TestRunBack" ∷ "TestRunFront" ∷ "TestRunLeft"
    ∷ "TestRunRight" ∷ "TestRunWait" ∷ "ThrowCap" ∷ "ThrowCapJump" ∷ "ThrowCapJumpParts"
    ∷ "ThrowCapParts" ∷ "TouchJump" ∷ "TouchJumpLong" ∷ "TouchJumpLongSign" ∷ "TractorBubbleEmd"
    ∷ "TractorBubbleEnd" ∷ "TractorBubbleStart" ∷ "TractorBubbleWait" ∷ "TreeClimb" ∷ "TreeFall"
    ∷ "Turn" ∷ "TurnPoint" ∷ "TurnStep" ∷ "Wait" ∷ "WaitCold" ∷ "WaitDemo" ∷ "WaitDigPoint"
    ∷ "WaitHot" ∷ "WaitRelax" ∷ "WaitRelaxStart" ∷ "WaitVeryCold" ∷ "Walk" ∷ "WalkDemo" ∷ "WalkSoft"
    ∷ "WallCatch" ∷ "WallCatchEnd" ∷ "WallCatchEndFast" ∷ "WallCatchEndJump" ∷ "WallCatchMoveL"
    ∷ "WallCatchMoveR" ∷ "WallCatchStart" ∷ "WallJump" ∷ "WallKeep" ∷ "WallKeepReverse" ∷ "WallLand"
    ∷ "WallSlideL" ∷ "WallSlideR" ∷ "WarpIn" ∷ "WarpOut" ∷ "WarpWait" ∷ "WaterRoadMove" ∷ "WearEnd"
    ∷ "WhipAttackEnd" ∷ "WhipAttackStart" ∷ "WhipAttackWait" ∷ "WhipWait" ∷ "WorldWarpBind"
    ∷ "WorldWarpBindStart" ∷ "WorldWarpIn" ∷ "WorldWarpOut" ∷ "BubbleCannonJump" ∷ "Down"
    ∷ "HackCancelJump" ∷ "HackHighJump" ∷ "HackJump" ∷ "HackStart" ∷ "HackStartDown" ∷ "HackWait"
    ∷ "HackWaitSpeedy" ∷ "LandFrontDown" ∷ "LandFrontUp" ∷ "MoveSpeedy" ∷ "Up" ∷ "Angry"
    ∷ "AppearSign" ∷ "AppearStart" ∷ "AttackSuccess" ∷ "Blow" ∷ []
